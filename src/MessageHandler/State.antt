-- ===== src/MessageHandler/State.antt =====
-- The state of a `MessageHandler`, and of the thread that processes its messages. Callbacks stand in
-- it by name: what they do is a parameter of the handler.
use lsp_framework_noec.Base.{
  ℕ, Bool, List, Option, Bytes, ℤ, Outcome, ok, unexpected, terminate, out_of_fuel,
}
use lsp_framework_noec.Json.Value.{Value}
use lsp_framework_noec.Jsonrpc
use lsp_framework_noec.Jsonrpc.{MessageId, Response}
use lsp_framework_noec.Io.{Stream}

-- A task in the thread pool: it waits for a future and writes the response, unless the request was a
-- notification.
pub record AsyncResponse : Type 0 where
  pub request_id : MessageId
  pub is_notification : Bool
  pub future : ℕ

pub record Handler : Type 0 where
  -- `m_connection`.
  pub stream : Stream
  -- `m_threadPool`: the tasks that were added and are not taken yet.
  pub tasks : List AsyncResponse
  pub request_handlers_by_method : List (Bytes × ℕ)
  pub pending_requests : List (MessageId × ℕ)
  -- `t_currentRequestId`.
  pub current_request : Option MessageId
  -- `s_uniqueRequestId`, which all handlers of the process share.
  pub unique_request_id : ℤ

-- A call on a handler; an exception that nothing catches ends the process.
abbrev pub M : Type 0 → Type 0
M A = Handler → Outcome ⊥ (A × Handler)

abbrev pub bind_call :
    {A B : Type 0} → (A → M B) → Outcome ⊥ (A × Handler) → Outcome ⊥ (B × Handler)
bind_call f (ok (a, s)) = f a s
bind_call f (unexpected e) = unexpected e
bind_call f terminate = terminate
bind_call f out_of_fuel = out_of_fuel

infixl 5 ◌>>=◌ ◌>>◌
abbrev pub ◌>>=◌ : {A B : Type 0} → M A → (A → M B) → M B
(m >>= f) s = bind_call f (m s)

abbrev pub ◌>>◌ : {A B : Type 0} → M A → M B → M B
m >> k = m >>= (λ _. k)

abbrev pub pure : {A : Type 0} → A → M A
pure a s = ok (a, s)

abbrev pub modify : (Handler → Handler) → M (Unit {0})
modify f s = ok (tt, f s)

module _ (D : Type 0) where
  -- `HandlerWrapper`: the parameters, and whether the response may come later.
  abbrev pub HandlerWrapper : Type 0
  HandlerWrapper = Value D → Bool → M (Option (Response D))

  -- What a pending request gets.
  pub data Reply : Type 0 where
    value : Value D → Reply
    failure : Jsonrpc.Error D → Reply

  -- What the callbacks do, by their names: those of requests, those of pending requests, and the
  -- futures that callbacks return.
  pub record Callbacks : Type 0 where
    pub handle : ℕ → HandlerWrapper
    pub deliver : ℕ → Reply → M (Unit {0})
    -- What `get()` of a future gives, as JSON.
    pub await : ℕ → Outcome ⊥ (Value D)
