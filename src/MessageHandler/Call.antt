-- ===== src/MessageHandler/Call.antt =====
-- A remote call: two handlers whose streams are connected.
use lsp_framework_noec.Base.{
  ℕ, ◌≡◌, refl, ap, sym, ◌∙◌, Bool, true, false, [], append-nil, Option, none, some, Bytes, ok,
  lookup, insert, lookup-insert, bytes_key, ℤ,
}
use lsp_framework_noec.Json.Value.{Value}
use lsp_framework_noec.Json.Floats.{Floats}
use lsp_framework_noec.Jsonrpc.{
  MessageId, Request, Response, request, response, create_request, create_response,
}
use lsp_framework_noec.Io.{Stream}
use lsp_framework_noec.Connection.Message.{MessageOrBatch, message, write_message, read_message}
use lsp_framework_noec.Connection.RoundTrip.Messages.{Passes, read_message-write_message}
use lsp_framework_noec.MessageHandler.Ids.{id_key, increment}
use lsp_framework_noec.MessageHandler.State.{Handler, M, value, Callbacks}
use lsp_framework_noec.MessageHandler.Process.{
  set_current_request, process_request, process_message, process_incoming_messages, params_or_null,
  write, process,
}
use lsp_framework_noec.MessageHandler.Send.{send_request}
use lsp_framework_noec.MessageHandler.Wrappers.{generic_wrapper}
use lsp_framework_noec.MessageHandler.Pending.{id_eq_refl, taken_out, process_response_taken}

-- The bytes `i` arrive at a handler.
abbrev pub arrive : Bytes → Handler → Handler
arrive i s = record s { stream = record s.stream { input = i } }

-- A stream that takes output and has none yet.
abbrev pub IsFresh : Stream → Type 0
IsFresh s = (s.output ≡ []) × (s.output_broken ≡ false)

module _ (F : Floats) where
  open F use {Double}

  -- What one handler has written arrives at the other, which processes it.
  passed :
      (callbacks : Callbacks Double) (m : MessageOrBatch Double) (sender : Stream) (s : Handler)
      → IsFresh sender
      → Passes F m
      → process_incoming_messages F callbacks (arrive (write_message F m sender).1.output s)
        ≡ process F callbacks (ok m) (arrive [] s)
  unfolding process_incoming_messages
  passed callbacks m sender s (empty, works) p =
      let (sent, received) =
        read_message-write_message F m sender s.stream [] empty works p.sendable p.prints p.short in
      let whole = append-nil (write_message F m sender).1.output in
      let read : read_message F (record s.stream { input = (write_message F m sender).1.output })
          ≡ (ok m, record s.stream { input = [] }) =
        ap (λ o. read_message F (record s.stream { input = o })) (sym whole) ∙ received in
      rw read refl

  -- The client behind its call.
  abbrev pub sent : Bytes → ℕ → Option (Value Double) → Handler → Handler
  sent method k params s =
      let id = MessageId.integer (increment s.unique_request_id) in
      record s {
        pending_requests = insert id k s.pending_requests;
        unique_request_id = increment s.unique_request_id;
        stream = (write_message F (message (request (create_request id method params))) s.stream).1;
      }

  -- A handler with a response written.
  abbrev pub answered : Response Double → Handler → Handler
  answered r s = record s {
    stream = (write_message F (message (response r)) s.stream).1;
    current_request = none;
  }

  serve_request :
      (callbacks : Callbacks Double) (r : Request Double) (n : ℤ) (h : ℕ)
      (callback : Value Double → M (Value Double)) (result : Value Double) (s : Handler)
      → r.id ≡ some (MessageId.integer n)
      → lookup r.method s.request_handlers_by_method ≡ some h
      → ((v : Value Double) (b : Bool) (t : Handler)
          → callbacks.handle h v b t ≡ generic_wrapper callback v b t)
      → ((t : Handler) → callback (params_or_null r.params) t ≡ ok (result, t))
      → process F callbacks (ok (message (request r))) s
        ≡ ok (tt, answered (create_response (MessageId.integer n) result) s)
  unfolding process_message process_request generic_wrapper write
  serve_request callbacks r n h callback result s hid found wraps returns =
      let at = set_current_request (some (MessageId.integer n)) s in
      rw (found, hid) (rw (wraps (params_or_null r.params) true at) (rw (returns at) refl))

  take_reply :
      (callbacks : Callbacks Double) (id : MessageId) (k : ℕ) (result : Value Double)
      (got : Handler → Handler) (s : Handler)
      → lookup id s.pending_requests ≡ some k
      → ((t : Handler) → callbacks.deliver k (value result) t ≡ ok (tt, got t))
      → process F callbacks (ok (message (response (create_response id result)))) s
        ≡ ok (tt, set_current_request none (got (taken_out callbacks id s)))
  unfolding process_message create_response
  take_reply callbacks id k result got s found delivered =
      rw
        (process_response_taken callbacks (create_response id result) s
          (got (taken_out callbacks id s)) k (value result) found refl (delivered _))
        refl

  -- A call of a method that the server has a generic callback for: the client sends the request, the
  -- server reads it and writes the response, and the client reads that and delivers the callback's
  -- result to the pending request. All three return. This is for fresh streams that
  -- work, a generic callback that gives this result and leaves the handler as it is, a delivery that
  -- returns, and a request and a response that pass through a connection (`Passes`).
  pub remote_call :
      (on_client on_server : Callbacks Double) (client server : Handler) (method : Bytes) (k h : ℕ)
      (params : Option (Value Double)) (callback : Value Double → M (Value Double))
      (result : Value Double) (got : Handler → Handler)
      → IsFresh client.stream
      → IsFresh server.stream
      → lookup method server.request_handlers_by_method ≡ some h
      → ((v : Value Double) (b : Bool) (t : Handler)
          → on_server.handle h v b t ≡ generic_wrapper callback v b t)
      → ((t : Handler) → callback (params_or_null params) t ≡ ok (result, t))
      → ((t : Handler) → on_client.deliver k (value result) t ≡ ok (tt, got t))
      → let id = MessageId.integer (increment client.unique_request_id) in
        Passes F (message (request (create_request id method params)))
        → Passes F (message (response (create_response id result)))
        → let asked = sent method k params client in
          let replied = answered (create_response id result) (arrive [] server) in
          (send_request F method k params client ≡ ok (id, asked))
          × (process_incoming_messages F on_server (arrive asked.stream.output server)
              ≡ ok (tt, replied))
          × (process_incoming_messages F on_client (arrive replied.stream.output asked)
              ≡ ok (tt, set_current_request none (got (taken_out on_client id (arrive [] asked)))))
  unfolding send_request write
  remote_call on_client on_server client server method k h params callback result got fresh_client
        fresh_server found wraps returns delivered ask answer =
      let n = increment client.unique_request_id in
      let id = MessageId.integer n in
      let asked = sent method k params client in
      let query = create_request id method params in
      let pending : lookup id asked.pending_requests ≡ some k =
        lookup-insert id id k client.pending_requests ∙ rw (id_eq_refl id) refl in
      (
        refl,
        passed on_server (message (request query)) client.stream server fresh_client ask
            ∙ serve_request on_server query n h callback result (arrive [] server)
                (unfold create_request in refl) (unfold create_request in found) wraps
                (unfold create_request in returns),
        passed on_client (message (response (create_response id result))) (arrive [] server).stream
              asked fresh_server answer
            ∙ take_reply on_client id k result got (arrive [] asked) pending delivered,
      )
