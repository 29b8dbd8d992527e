-- ===== src/MessageHandler/Silent.antt =====
-- Requests that get no response.
use lsp_framework_noec.Base.{
  ℕ, ◌≡◌, refl, Bool, false, none, some, Outcome, ok, terminate, lookup, bytes_key,
}
use lsp_framework_noec.Json.Value.{Value}
use lsp_framework_noec.Jsonrpc.{MessageId, Request, is_notification}
use lsp_framework_noec.MessageHandler.State.{Handler, M, Callbacks}
use lsp_framework_noec.MessageHandler.Process.{
  set_current_request, id_or_null, params_or_null, process_request,
}
use lsp_framework_noec.MessageHandler.Wrappers.{generic_wrapper, request_wrapper, RequestCallback}

module _ {D : Type 0} (callbacks : Callbacks D) (h : ℕ) (r : Request D) (s : Handler)
    (found : lookup r.method s.request_handlers_by_method ≡ some h) where
  -- The state in which a callback runs.
  abbrev at_callback : Handler
  at_callback = set_current_request (some (id_or_null r.id)) s

  -- A request with the id null is no notification, but where its method has a generic callback that
  -- returns, it gets no response.
  pub process_request_null_id :
      (callback : Value D → M (Value D)) (result : Value D) (s' : Handler) (allow : Bool)
      → r.id ≡ some MessageId.null
      → ((v : Value D) (b : Bool) (t : Handler)
          → callbacks.handle h v b t ≡ generic_wrapper callback v b t)
      → callback (params_or_null r.params) (set_current_request (some MessageId.null) s)
        ≡ ok (result, s')
      → (is_notification r ≡ false)
        × (process_request callbacks r allow s ≡ ok (none, set_current_request none s'))
  unfolding process_request generic_wrapper
  process_request_null_id callback result s' allow hid wraps run = (
    rw hid refl,
    rw (found, hid)
        (rw (wraps (params_or_null r.params) allow (set_current_request (some MessageId.null) s))
          (rw run refl)),
  )

  -- Where the method has a typed callback, a request whose parameters do not convert ends the
  -- process.
  pub process_request_bad_params :
      {P R : Type 0} (await : ℕ → Outcome ⊥ (Value D)) (to_json : R → Value D)
      (from_json : Value D → Outcome ⊥ P) (callback : RequestCallback D P R) (allow : Bool)
      → ((v : Value D) (b : Bool) (t : Handler)
          → callbacks.handle h v b t ≡ request_wrapper await to_json from_json callback v b t)
      → from_json (params_or_null r.params) ≡ terminate
      → process_request callbacks r allow s ≡ terminate
  unfolding process_request request_wrapper
  process_request_bad_params await to_json from_json callback allow wraps bad =
      rw found (rw (wraps (params_or_null r.params) allow at_callback) (rw bad refl))
