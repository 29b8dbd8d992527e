-- ===== src/MessageHandler/Async.antt =====
-- An asynchronous request is answered as a synchronous one is, only later.
use lsp_framework_noec.Base.{
  ℕ, ◌≡◌, refl, ap, Bool, true, false, [], ◌∷◌, ◌++◌, none, some, Outcome, ok,
}
use lsp_framework_noec.Json.Value.{Value}
use lsp_framework_noec.Json.Floats.{Floats}
use lsp_framework_noec.Jsonrpc.{MessageId}
use lsp_framework_noec.MessageHandler.State.{AsyncResponse, Handler, M}
use lsp_framework_noec.MessageHandler.Process.{current_request_id, write_response}
use lsp_framework_noec.MessageHandler.Send.{run_task, send_response}
use lsp_framework_noec.MessageHandler.Wrappers.{is_null_id, respond, generic_async_wrapper}

module _ (F : Floats) (await : ℕ → Outcome ⊥ (Value F.Double)) where
  open F use {Double}

  -- The task that a request leaves in the thread pool.
  abbrev pub left_task : MessageId → ℕ → AsyncResponse
  left_task id future = record { request_id = id; is_notification = is_null_id id; future = future }

  run_respond :
      (id : MessageId) (b : Bool) (future : ℕ) (result : Value Double) (s : Handler)
      → await future ≡ ok result
      → run_task F await (record { request_id = id; is_notification = b; future = future }) s
        ≡ write_response F (respond id b result) s
  unfolding run_task send_response
  run_respond id true future result s e = rw e refl
  run_respond id false future result s e = rw e refl

  -- Where the response may come later, the wrapper of an asynchronous callback gives none and leaves
  -- a task; where it may not, it waits and gives the response. Executing the task on any handler
  -- writes what the response of the other case would be. This is for a callback and a future that
  -- return, where the callback leaves the current request alone.
  pub generic_async_wrapper_later :
      (callback : Value Double → M ℕ) (params result : Value Double) (s s' : Handler) (future : ℕ)
      → callback params s ≡ ok (future, s')
      → s'.current_request ≡ s.current_request
      → await future ≡ ok result
      → let id = current_request_id s in
        (generic_async_wrapper await callback params true s
          ≡ ok (none, record s' { tasks = s'.tasks ++ left_task id future ∷ [] }))
        × (generic_async_wrapper await callback params false s
            ≡ ok (respond id (is_null_id id) result, s'))
        × ((t : Handler)
            → run_task F await (left_task id future) t
              ≡ write_response F (respond id (is_null_id id) result) t)
  unfolding generic_async_wrapper
  generic_async_wrapper_later callback params result s s' future run same done =
      let id = current_request_id s in
      let here : current_request_id s' ≡ id =
        ap (λ c. elim c [ none ↦ MessageId.null | some i ↦ i ]) same in
      (
        rw run (
            ap
              (λ i. ok (
                none,
                record s' {
                  tasks =
                      s'.tasks
                      ++ record { request_id = i; is_notification = is_null_id id; future = future }
                        ∷ [];
                },
              ))
              here),
        rw run (rw done (ap (λ i. ok (respond i (is_null_id id) result, s')) here)),
        λ t. run_respond id (is_null_id id) future result t done,
      )
