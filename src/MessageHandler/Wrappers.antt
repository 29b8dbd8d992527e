-- ===== src/MessageHandler/Wrappers.antt =====
-- The wrappers that `add` makes of a callback, for generic and for typed messages.
use lsp_framework_noec.Base.{
  ℕ, Bool, true, false, [], ◌∷◌, ◌++◌, Option, none, some, Outcome, ok, if◌then◌else◌,
}
use lsp_framework_noec.Json.Value.{Value}
use lsp_framework_noec.Jsonrpc
use lsp_framework_noec.Jsonrpc.{MessageId, Response, create_response, create_error_response}
use lsp_framework_noec.MessageHandler.State.{
  AsyncResponse, HandlerWrapper, M, ◌>>=◌, ◌>>◌, pure, modify,
}
use lsp_framework_noec.MessageHandler.Process.{current_request_id}
use lsp_framework_noec.MessageHandler.Send.{lift}

abbrev pub is_null_id : MessageId → Bool
is_null_id MessageId.null = true
is_null_id (MessageId.integer n) = false
is_null_id (MessageId.string s) = false

abbrev pub current : M MessageId
current s = ok (current_request_id s, s)

-- `m_threadPool.addTask(...)`.
abbrev pub add_task : AsyncResponse → M (Unit {0})
add_task task = modify (λ s. record s { tasks = s.tasks ++ task ∷ [] })

module _ {D : Type 0} where
  abbrev pub respond : MessageId → Bool → Value D → Option (Response D)
  respond id is_notification result =
      if is_notification then none else some (create_response id result)

  -- `add(method, GenericMessageCallback)`.
  unfoldable pub generic_wrapper : (Value D → M (Value D)) → HandlerWrapper D
  generic_wrapper callback params allow_async = do
    first ← current
    result ← callback params
    id ← current
    pure (respond id (is_null_id first) result)

module _ {D : Type 0} (await : ℕ → Outcome ⊥ (Value D)) where
  -- `add(method, GenericAsyncMessageCallback)`.
  unfoldable pub generic_async_wrapper : (Value D → M ℕ) → HandlerWrapper D
  generic_async_wrapper callback params allow_async = do
    first ← current
    future ← callback params
    id ← current
    let later = (do
      add_task (record { request_id = id; is_notification = is_null_id first; future = future })
      pure none)
    let now = (do
      result ← lift (await future)
      id' ← current
      pure (respond id' (is_null_id first) result))
    if allow_async then later else now

-- `RequestResult<M>`.
pub data RequestResult (D R : Type 0) : Type 0 where
  result : R → RequestResult D R
  failed : Jsonrpc.Error D → RequestResult D R

-- The kinds of callbacks that `add<M>` tells apart at compile time.
pub data RequestCallback (D P R : Type 0) : Type 0 where
  plain : (P → M R) → RequestCallback D P R
  checked : (P → M (RequestResult D R)) → RequestCallback D P R
  async : (P → M ℕ) → RequestCallback D P R

-- A notification has no result: what a checked one gives is dropped.
pub data NotificationCallback (D P : Type 0) : Type 0 where
  plain_notification : (P → M (Unit {0})) → NotificationCallback D P
  checked_notification : (P → M (RequestResult D (Unit {0}))) → NotificationCallback D P
  async_notification : (P → M ℕ) → NotificationCallback D P

module _ {D R : Type 0} (to_json : R → Value D) where
  abbrev pub create_response_from_request_result : MessageId → RequestResult D R → Response D
  create_response_from_request_result id (result r) = create_response id (to_json r)
  create_response_from_request_result id (failed e) =
      create_error_response id e.code e.message e.details

module _ {D P R : Type 0} (await : ℕ → Outcome ⊥ (Value D)) (to_json : R → Value D) where
  -- The callback of a request, with its parameters.
  abbrev pub call_request : RequestCallback D P R → MessageId → P → Bool → M (Option (Response D))
  call_request (plain f) id params allow_async = do
    r ← f params
    pure (some (create_response id (to_json r)))
  call_request (checked f) id params allow_async = do
    r ← f params
    pure (some (create_response_from_request_result to_json id r))
  call_request (async f) id params allow_async = do
    future ← f params
    let later = (do
      add_task (record { request_id = id; is_notification = false; future = future })
      pure none)
    let now = (do r ← lift (await future); pure (some (create_response id r)))
    if allow_async then later else now

  -- `add<M>(...) requires IsRequestCallback<M, F>`.
  unfoldable pub request_wrapper :
      (Value D → Outcome ⊥ P) → RequestCallback D P R → HandlerWrapper D
  request_wrapper from_json callback json allow_async = do
    params ← lift (from_json json)
    id ← current
    call_request callback id params allow_async

  -- `add<M>(...) requires IsNoParamsRequestCallback<M, F>`.
  unfoldable pub no_params_request_wrapper : P → RequestCallback D P R → HandlerWrapper D
  no_params_request_wrapper nothing callback json allow_async = do
    id ← current
    call_request callback id nothing allow_async

module _ {D P : Type 0} (await : ℕ → Outcome ⊥ (Value D)) where
  -- A task that only waits for the future is a response that is not written.
  abbrev pub call_notification : NotificationCallback D P → P → Bool → M (Option (Response D))
  call_notification (plain_notification f) params allow_async = do f params; pure none
  call_notification (checked_notification f) params allow_async = do r ← f params; pure none
  call_notification (async_notification f) params allow_async = do
    future ← f params
    let later =
        add_task (record { request_id = MessageId.null; is_notification = true; future = future })
    let now = (do r ← lift (await future); pure tt)
    _ ← if allow_async then later else now
    pure none

  -- `add<M>(...) requires IsNotificationCallback<M, F>`.
  unfoldable pub notification_wrapper :
      (Value D → Outcome ⊥ P) → NotificationCallback D P → HandlerWrapper D
  notification_wrapper from_json callback json allow_async = do
    params ← lift (from_json json)
    call_notification callback params allow_async

  -- `add<M>(...) requires IsNoParamsNotificationCallback<M, F>`.
  unfoldable pub no_params_notification_wrapper : P → NotificationCallback D P → HandlerWrapper D
  no_params_notification_wrapper nothing callback json allow_async =
      call_notification callback nothing allow_async
