-- ===== src/MessageHandler/Send.antt =====
-- Outgoing messages, `add` and `remove`, and what a pending request does with its reply:
-- `sendRequest`, `sendNotification`, `addHandler`, `remove`, `sendResponse`, the tasks of the thread
-- pool, `CallbackRequestResult` and `FutureRequestResult`.
use lsp_framework_noec.Base.{
  some, ℕ, Option, Bytes, Outcome, ok, unexpected, terminate, out_of_fuel, insert, erase, bytes_key,
  if◌then◌else◌,
}
use lsp_framework_noec.Json.Value.{Value}
use lsp_framework_noec.Json.Floats.{Floats}
use lsp_framework_noec.Jsonrpc
use lsp_framework_noec.Jsonrpc.{
  MessageId, Response, Message, request, response, create_request, create_notification,
  create_response,
}
use lsp_framework_noec.Connection.Message.{message}
use lsp_framework_noec.MessageHandler.Ids.{id_key, increment}
use lsp_framework_noec.MessageHandler.State.{
  AsyncResponse, M, ◌>>=◌, ◌>>◌, pure, modify, Reply, value, failure,
}
use lsp_framework_noec.MessageHandler.Process.{write}

-- `addHandler`, by the name of the wrapper.
unfoldable pub add_handler : Bytes → ℕ → M (Unit {0})
add_handler method h =
    modify
      (λ s. record s { request_handlers_by_method = insert method h s.request_handlers_by_method })

unfoldable pub remove : Bytes → M (Unit {0})
remove method =
    modify
      (λ s. record s { request_handlers_by_method = erase method s.request_handlers_by_method })

-- `nextUniqueRequestId()`.
unfoldable pub next_unique_request_id : M MessageId
next_unique_request_id s =
    let n = increment s.unique_request_id in
    ok (MessageId.integer n, record s { unique_request_id = n })

abbrev pub lift : {A : Type 0} → Outcome ⊥ A → M A
lift (ok a) s = ok (a, s)
lift (unexpected e) s = unexpected e
lift terminate s = terminate
lift out_of_fuel s = out_of_fuel

module _ (F : Floats) where
  open F use {Double}

  -- `k` names the pending request's result object.
  unfoldable pub send_request : Bytes → ℕ → Option (Value Double) → M MessageId
  unfolding next_unique_request_id
  send_request method k params = do
    id ← next_unique_request_id
    modify (λ s. record s { pending_requests = insert id k s.pending_requests })
    write F (message (request (create_request id method params)))
    pure id

  unfoldable pub send_notification : Bytes → Option (Value Double) → M (Unit {0})
  send_notification method params = write F (message (request (create_notification method params)))

  unfoldable pub send_response : Response Double → M (Unit {0})
  send_response r = write F (message (response r))

  -- A worker of the thread pool executes the task.
  unfoldable pub run_task : (ℕ → Outcome ⊥ (Value Double)) → AsyncResponse → M (Unit {0})
  run_task await task = do
    result ← lift (await task.future)
    if task.is_notification then pure tt else send_response (create_response task.request_id result)

-- The same for the parameters of a typed message.
module _ (F : Floats) {P : Type 0} (to_json : P → Value F.Double) where
  unfoldable pub send_typed_request : Bytes → ℕ → P → M MessageId
  send_typed_request method k params = send_request F method k (some (to_json params))

  unfoldable pub send_typed_notification : Bytes → P → M (Unit {0})
  send_typed_notification method params = send_notification F method (some (to_json params))

module _ {D T : Type 0} (from_json : Value D → Outcome ⊥ T) where
  -- `CallbackRequestResult::setValueFromJson` and `setError`.
  unfoldable pub deliver_to_callback :
      (T → M (Unit {0})) → (Jsonrpc.Error D → M (Unit {0})) → Reply D → M (Unit {0})
  deliver_to_callback then_do else_do (value json) = do v ← lift (from_json json); then_do v
  deliver_to_callback then_do else_do (failure error) = else_do error

  -- `FutureRequestResult::setValueFromJson` and `setError`: the promise gets `T()` for an error.
  unfoldable pub deliver_to_future : T → (T → M (Unit {0})) → Reply D → M (Unit {0})
  deliver_to_future default set_value (value json) = do v ← lift (from_json json); set_value v
  deliver_to_future default set_value (failure error) = set_value default
