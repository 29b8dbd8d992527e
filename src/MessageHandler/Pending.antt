-- ===== src/MessageHandler/Pending.antt =====
-- Requests that wait for their responses.
use lsp_framework_noec.Base.{
  ℕ, ◌≡◌, refl, true, Option, none, some, Bytes, ok, lookup, insert, erase, lookup-insert,
  if◌then◌else◌,
}
use lsp_framework_noec.Json.Value.{Value}
use lsp_framework_noec.Json.Floats.{Floats}
use lsp_framework_noec.Jsonrpc.{MessageId, Response, request, create_request}
use lsp_framework_noec.Connection.Message.{message, write_message}
use lsp_framework_noec.MessageHandler.Ids.{id_eq, id_eq_iff, id_key, increment}
use lsp_framework_noec.MessageHandler.State.{Handler, ◌>>◌, Reply, Callbacks}
use lsp_framework_noec.MessageHandler.Process.{
  set_current_request, process_response, reply_of, write,
}
use lsp_framework_noec.MessageHandler.Send.{send_request}

pub id_eq_refl : (a : MessageId) → id_eq a a ≡ true
id_eq_refl a = (id_eq_iff a a).1 refl

-- A request that was sent stands in the map under its new id, nothing else in the map has changed,
-- and its message was given to the connection.
pub send_request_lem :
    (F : Floats) (method : Bytes) (k : ℕ) (params : Option (Value F.Double)) (s : Handler)
    → let id = MessageId.integer (increment s.unique_request_id) in
      (s' : Handler) × (send_request F method k params s ≡ ok (id, s'))
      × ((j : MessageId)
          → lookup j s'.pending_requests
            ≡ (if id_eq id j then some k else lookup j s.pending_requests))
      × (s'.unique_request_id ≡ increment s.unique_request_id)
      × (s'.stream
          ≡ (write_message F (message (request (create_request id method params))) s.stream).1)
unfolding send_request write
send_request_lem F method k params s =
    let id = MessageId.integer (increment s.unique_request_id) in
    (
      record s {
        pending_requests = insert id k s.pending_requests;
        unique_request_id = increment s.unique_request_id;
        stream = (write_message F (message (request (create_request id method params))) s.stream).1;
      },
      refl,
      λ j. lookup-insert id j k s.pending_requests,
      refl,
      refl,
    )

module _ {D : Type 0} (callbacks : Callbacks D) where
  -- The handler that the callback of a pending request sees: its request is pending no more.
  abbrev pub taken_out : MessageId → Handler → Handler
  taken_out id s = record s {
    pending_requests = erase id s.pending_requests;
    current_request = some id;
  }

  pub process_response_taken :
      (r : Response D) (s s' : Handler) (k : ℕ) (reply : Reply D)
      → lookup r.id s.pending_requests ≡ some k
      → reply_of callbacks r.result r.error ≡ ok reply
      → callbacks.deliver k reply (taken_out r.id s) ≡ ok (tt, s')
      → process_response callbacks r s ≡ ok (tt, set_current_request none s')
  unfolding process_response
  process_response_taken r s s' k reply found replied run = rw (found, replied) (rw run refl)
