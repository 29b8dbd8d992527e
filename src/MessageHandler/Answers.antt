-- ===== src/MessageHandler/Answers.antt =====
-- Which requests are answered.
use lsp_framework_noec.Base.{
  ℕ, ◌≡◌, refl, ap, ◌∙◌, Bool, true, false, List, [], ◌∷◌, ◌++◌, Option, none, some, ok, bytes_key,
  if◌then◌else◌,
}
use lsp_framework_noec.Json.Value.{Value}
use lsp_framework_noec.Jsonrpc
use lsp_framework_noec.Jsonrpc.{MessageId, Response, Message, request, response, create_response}
use lsp_framework_noec.MessageHandler.Ids.{id_key}
use lsp_framework_noec.MessageHandler.State.{Handler, M, Reply, Callbacks}
use lsp_framework_noec.MessageHandler.Process.{current_request_id}
use lsp_framework_noec.MessageHandler.Wrappers.{is_null_id, respond, generic_wrapper}

-- The id of an answer, and the id that an answer is to have.
abbrev pub reply_id : {D : Type 0} → Option (Response D) → Option MessageId
reply_id none = none
reply_id (some r) = some r.id

abbrev pub wanted_id : MessageId → Option MessageId
wanted_id id = if is_null_id id then none else some id

-- Callbacks that return: a request's gives a response under its id, if that is not null, and a
-- pending request takes any reply.
pub record Serves {D : Type 0} (callbacks : Callbacks D) : Type 0 where
  pub answers :
      (h : ℕ) (params : Value D) (s : Handler) (id : MessageId)
      → s.current_request ≡ some id
      → (reply : Option (Response D)) × (s' : Handler) × (callbacks.handle h params false s
          ≡ ok (reply, s'))
        × (reply_id reply ≡ wanted_id id)
  pub delivers :
      (k : ℕ) (reply : Reply D) (s : Handler)
      → (s' : Handler) × (callbacks.deliver k reply s ≡ ok (tt, s'))

current_of :
    (s : Handler) (id : MessageId) → s.current_request ≡ some id → current_request_id s ≡ id
current_of s id c = rw c refl

respond_id :
    {D : Type 0} (id : MessageId) (b : Bool) (r : Value D)
    → reply_id (respond id b r) ≡ (if b then none else some id)
unfolding create_response
respond_id id true r = refl
respond_id id false r = refl

-- A wrapper of a generic callback that returns and leaves the current request alone answers so.
pub generic_wrapper_answers :
    {D : Type 0} (callback : Value D → M (Value D))
    → ((v : Value D) (s : Handler)
        → (r : Value D) × (s' : Handler) × (callback v s ≡ ok (r, s'))
          × (s'.current_request ≡ s.current_request))
    → (params : Value D) (s : Handler) (id : MessageId) (allow : Bool) → s.current_request ≡ some id
    → (reply : Option (Response D)) × (s' : Handler) × (generic_wrapper callback params allow s
        ≡ ok (reply, s'))
      × (reply_id reply ≡ wanted_id id)
unfolding generic_wrapper
generic_wrapper_answers callback returns params s id allow c =
    let (r, s', run, same) = returns params s in
    let here = current_of s id c in
    let there = current_of s' id (same ∙ c) in
    (
      respond id (is_null_id id) r,
      s',
      rw run (
          ap (λ i. ok (respond i (is_null_id (current_request_id s)) r, s')) there
          ∙ ap (λ i. ok (respond id (is_null_id i) r, s')) here),
      respond_id id (is_null_id id) r,
    )

abbrev pub id_list : Option MessageId → List MessageId
id_list none = []
id_list (some id) = id ∷ []

abbrev pub HasIdNotNull : Option MessageId → Type 0
HasIdNotNull none = Unit
HasIdNotNull (some id) = is_null_id id ≡ false

module _ {D : Type 0} where
  abbrev pub message_ids : Message D → List MessageId
  message_ids (request r) = id_list r.id
  message_ids (response r) = []

  -- The ids of the requests of a batch that are no notifications.
  abbrev pub request_ids : List (Message D) → List MessageId
  request_ids [] = []
  request_ids (m ∷ ms) = message_ids m ++ request_ids ms

  -- The ids of the responses in a list.
  abbrev pub response_ids : List (Message D) → List MessageId
  response_ids [] = []
  response_ids (request r ∷ ms) = response_ids ms
  response_ids (response r ∷ ms) = r.id ∷ response_ids ms

  -- No request has the id null, and every response has a result or an error.
  abbrev pub IsAnswerable : Message D → Type 0
  IsAnswerable (request r) = HasIdNotNull r.id
  IsAnswerable (response r) = Jsonrpc.has_one r.result r.error ≡ true
