-- ===== src/MessageHandler/Process.antt =====
-- Incoming messages: `processIncomingMessages`, `processRequest` and `processResponse`.
use lsp_framework_noec.Base.{
  ℕ, Bool, true, false, List, [], ◌∷◌, ◌++◌, Option, none, some, codes, ℤ, negsuc, Outcome, ok,
  unexpected, terminate, out_of_fuel, lookup, erase, bytes_key,
}
use lsp_framework_noec.Json.Value.{Value}
use lsp_framework_noec.Json.Floats.{Floats}
use lsp_framework_noec.Jsonrpc
use lsp_framework_noec.Jsonrpc.{
  MessageId, Request, Response, Message, request, response, create_error_response,
}
use lsp_framework_noec.Connection.Reader.{ConnectionError}
use lsp_framework_noec.Connection.Message.{
  MessageOrBatch, message, batch, write_message, read_message,
}
use lsp_framework_noec.MessageHandler.Ids.{id_key}
use lsp_framework_noec.MessageHandler.State.{
  Handler, M, ◌>>=◌, ◌>>◌, pure, modify, Reply, value, failure, Callbacks,
}

-- `MessageError::MethodNotFound`.
abbrev pub method_not_found : ℤ
method_not_found = negsuc 32600

-- `currentRequestId()`: null where no request is being processed.
abbrev pub current_request_id : Handler → MessageId
current_request_id s = elim s.current_request [ none ↦ MessageId.null | some id ↦ id ]

abbrev pub set_current_request : Option MessageId → Handler → Handler
set_current_request id s = record s { current_request = id }

-- The id under which a callback runs: null for a notification.
abbrev pub id_or_null : Option MessageId → MessageId
id_or_null none = MessageId.null
id_or_null (some id) = id

abbrev pub params_or_null : {D : Type 0} → Option (Value D) → Value D
params_or_null none = Value.null
params_or_null (some v) = v

module _ {D : Type 0} (callbacks : Callbacks D) where
  abbrev pub no_handler : Option MessageId → Option (Response D)
  no_handler none = none
  no_handler (some id) =
      some (create_error_response id method_not_found (codes "Method not found") none)

  abbrev pub call_handler : Option ℕ → Request D → Bool → M (Option (Response D))
  call_handler none r allow_async = pure (no_handler r.id)
  call_handler (some h) r allow_async = do
    modify (set_current_request (some (id_or_null r.id)))
    reply ← callbacks.handle h (params_or_null r.params) allow_async
    modify (set_current_request none)
    pure reply

  unfoldable pub process_request : Request D → Bool → M (Option (Response D))
  process_request r allow_async s =
      call_handler (lookup r.method s.request_handlers_by_method) r allow_async s

  -- A response with no result and no error, which `responseFromJson` never gives, fails the
  -- assertion.
  abbrev pub reply_of : Option (Value D) → Option (Jsonrpc.Error D) → Outcome ⊥ (Reply D)
  reply_of (some v) e = ok (value v)
  reply_of none (some e) = ok (failure e)
  reply_of none none = terminate

  abbrev pub deliver_reply : ℕ → Outcome ⊥ (Reply D) → M (Unit {0})
  deliver_reply k (ok reply) = callbacks.deliver k reply
  deliver_reply k (unexpected e) = λ s. unexpected e
  deliver_reply k terminate = λ s. terminate
  deliver_reply k out_of_fuel = λ s. out_of_fuel

  -- The pending request is taken out of the map before its reply is delivered.
  abbrev pub take_response : Option ℕ → Response D → M (Unit {0})
  take_response none r = pure tt
  take_response (some k) r = do
    modify (λ s. record s { pending_requests = erase r.id s.pending_requests })
    modify (set_current_request (some r.id))
    deliver_reply k (reply_of r.result r.error)
    modify (set_current_request none)

  unfoldable pub process_response : Response D → M (Unit {0})
  process_response r s = take_response (lookup r.id s.pending_requests) r s

  -- A message of a batch, with the responses so far.
  unfoldable pub process_message : Message D → Bool → M (Option (Response D))
  process_message (request r) allow_async = process_request r allow_async
  process_message (response r) allow_async = do process_response r; pure none

  abbrev pub push_response : List (Message D) → Option (Response D) → List (Message D)
  push_response responses none = responses
  push_response responses (some r) = responses ++ response r ∷ []

  -- The loop over a batch.
  unfoldable pub process_batch : List (Message D) → List (Message D) → M (List (Message D))
  process_batch [] responses = pure responses
  process_batch (m ∷ ms) responses = do
    reply ← process_message m false
    process_batch ms (push_response responses reply)

module _ (F : Floats) where
  open F use {Double}

  -- `(void)m_connection.writeMessage(...)`.
  unfoldable pub write : MessageOrBatch Double → M (Unit {0})
  write m = modify (λ s. record s { stream = (write_message F m s.stream).1 })

  abbrev pub write_response : Option (Response Double) → M (Unit {0})
  write_response none = pure tt
  write_response (some r) = write (message (response r))

  abbrev pub write_responses : List (Message Double) → M (Unit {0})
  write_responses [] = pure tt
  write_responses (r ∷ rs) = write (batch (r ∷ rs))

module _ (F : Floats) (callbacks : Callbacks F.Double) where
  open F use {Double}

  abbrev pub process : Outcome ConnectionError (MessageOrBatch Double) → M (Unit {0})
  process (ok (message m)) = do reply ← process_message callbacks m true; write_response F reply
  process (ok (batch ms)) = do
    responses ← process_batch callbacks ms []
    write_responses F responses
  process (unexpected e) = pure tt
  process terminate = λ s. terminate
  process out_of_fuel = λ s. out_of_fuel

  unfoldable pub process_incoming_messages : M (Unit {0})
  process_incoming_messages s =
      let (received, stream) = read_message F s.stream in
      process received (record s { stream = stream })
