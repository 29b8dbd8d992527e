-- ===== src/HandlerWitnesses.antt =====
-- Two small message handlers, for the theorems on lsp/messagehandler.cpp.
use lsp_framework_noec.Base.{
  ◌-◌, ◌^◌, ◌≡◌, ◌≢◌, refl, true, false, [], ◌∷◌, none, some, codes, length, pos, Outcome, ok,
  arith, ℤ, Bytes, to_string_nat, to_string_int, bytes_eq, lookup, bytes_key,
}
use lsp_framework_noec.Json.Value.{Value, boolean, null}
use lsp_framework_noec.Json.Object.{assign, contains}
use lsp_framework_noec.Json.Literal.{escape_char, to_string_literal}
use lsp_framework_noec.Json.Printer.{emit, new_line, separator, indent, stringify}
use lsp_framework_noec.Json.Tests.{no_floats}
use lsp_framework_noec.Jsonrpc
use lsp_framework_noec.Jsonrpc.{
  MessageId, Message, Request, Response, request, response, create_request, create_response,
  message_to_json, is_notification,
}
use lsp_framework_noec.Jsonrpc.{as_string}
use lsp_framework_noec.Serialization.Serial.{value_of}
use lsp_framework_noec.Io.{Stream}
use lsp_framework_noec.Connection.Message.{message, message_json}
use lsp_framework_noec.MessageHandler.Ids.{id_key, increment, increment_by, increment_by-ne}
use lsp_framework_noec.MessageHandler.State.{Handler, M, ◌>>◌, pure, Callbacks}
use lsp_framework_noec.MessageHandler.Process.{
  set_current_request, process_request, process_incoming_messages, write_response,
}
use lsp_framework_noec.MessageHandler.Send.{send_request, run_task}
use lsp_framework_noec.MessageHandler.Wrappers.{
  is_null_id, respond, generic_wrapper, generic_async_wrapper, request_wrapper, plain,
}
use lsp_framework_noec.MessageHandler.Pending.{taken_out}
use lsp_framework_noec.MessageHandler.Async.{generic_async_wrapper_later, left_task}
use lsp_framework_noec.Connection.RoundTrip.Messages.{Passes}
use lsp_framework_noec.MessageHandler.Call.{arrive, sent, answered, remote_call}
use lsp_framework_noec.MessageHandler.Silent.{process_request_null_id}

abbrev idle : Stream
idle = record {
  input = [];
  input_breaks = false;
  input_error = false;
  output = [];
  output_broken = false;
}

abbrev handler : Handler
handler = record {
  stream = idle;
  tasks = [];
  request_handlers_by_method = (codes "ping", 0) ∷ [];
  pending_requests = (MessageId.integer (pos 9), 4) ∷ [];
  current_request = none;
  unique_request_id = pos 0;
}

abbrev always_true : Value ℤ → M (Value ℤ)
always_true v = pure (boolean true)

abbrev callbacks : Callbacks ℤ
callbacks = record {
  handle = λ h. generic_wrapper always_true;
  deliver = λ k reply s. ok (tt, s);
  await = λ future. ok null;
}

abbrev id1 : MessageId
id1 = MessageId.integer (pos 1)

abbrev pub query : Message ℤ
query = request (create_request id1 (codes "ping") none)

abbrev pub reply1 : Message ℤ
reply1 = response (create_response id1 (boolean true))

query-length : length (stringify no_floats (message_json (message query)) false) ≡ 40
unfolding create_request stringify message_json message_to_json emit new_line separator indent
    Jsonrpc.id_to_json assign bytes_eq to_string_literal escape_char to_string_int to_string_nat
query-length = refl

pub query-Passes : Passes no_floats (message query)
unfolding create_request message_json message_to_json assign Jsonrpc.id_to_json contains bytes_eq
query-Passes = record {
  sendable = (ground arith, tt);
  prints = (refl, tt, (refl, ground arith, (refl, tt, tt)));
  short = rw query-length (ground arith);
}

reply1-length : length (stringify no_floats (message_json (message reply1)) false) ≡ 38
unfolding create_response stringify message_json message_to_json emit new_line separator indent
    Jsonrpc.id_to_json assign bytes_eq to_string_literal escape_char to_string_int to_string_nat
reply1-length = refl

pub reply1-Passes : Passes no_floats (message reply1)
unfolding create_response message_json message_to_json assign Jsonrpc.id_to_json contains bytes_eq
reply1-Passes = record {
  sendable = (ground arith, refl, tt);
  prints = (refl, tt, (refl, ground arith, (refl, tt, tt)));
  short = rw reply1-length (ground arith);
}

ping_found : lookup (codes "ping") handler.request_handlers_by_method ≡ some 0
unfolding bytes_eq
ping_found = refl

remote_call_example :
    let asked = sent no_floats (codes "ping") 7 none handler in
    let replied = answered no_floats (create_response id1 (boolean true)) (arrive [] handler) in
    (send_request no_floats (codes "ping") 7 none handler ≡ ok (id1, asked))
    × (process_incoming_messages no_floats callbacks (arrive asked.stream.output handler)
        ≡ ok (tt, replied))
    × (process_incoming_messages no_floats callbacks (arrive replied.stream.output asked)
        ≡ ok (tt, set_current_request none (taken_out callbacks id1 (arrive [] asked))))
unfolding increment
remote_call_example =
    remote_call no_floats callbacks callbacks handler handler (codes "ping") 7 0 none always_true
      (boolean true) (λ s. s) (refl, refl) (refl, refl) ping_found (λ v b t. refl) (λ t. refl)
      (λ t. refl) query-Passes reply1-Passes

abbrev notice : Message ℤ
notice = request (record { id = none; method = codes "pong"; params = none })

abbrev reply9 : Response ℤ
reply9 = record { id = MessageId.integer (pos 9); result = some (boolean true); error = none }

-- The callback of a pending request sends another request.
abbrev asking : Callbacks ℤ
asking = record callbacks { deliver = λ k reply s. ok (tt, sent no_floats (codes "ping") 5 none s) }

abbrev asked_again : Handler
asked_again = sent no_floats (codes "ping") 5 none (taken_out asking reply9.id handler)

abbrev waiting : Handler
waiting = set_current_request (some id1) handler

generic_async_wrapper_later_example :
    (generic_async_wrapper {D = ℤ} (λ f. ok null) (λ v. pure 3) null true waiting
      ≡ ok (none, record waiting { tasks = left_task no_floats (λ f. ok null) id1 3 ∷ [] }))
    × (generic_async_wrapper {D = ℤ} (λ f. ok null) (λ v. pure 3) null false waiting
        ≡ ok (respond id1 (is_null_id id1) null, waiting))
    × ((t : Handler)
        → run_task no_floats (λ f. ok null) (left_task no_floats (λ f. ok null) id1 3) t
          ≡ write_response no_floats (respond id1 (is_null_id id1) null) t)
generic_async_wrapper_later_example =
    generic_async_wrapper_later no_floats (λ f. ok null) (λ v. pure 3) null null waiting waiting 3
      refl refl refl

increment_by-ne_example :
    MessageId.integer (increment_by 2 (pos (2 ^ 31 - 1)))
    ≢ MessageId.integer (increment_by 5 (pos (2 ^ 31 - 1)))
increment_by-ne_example =
    increment_by-ne 2 5 (pos (2 ^ 31 - 1)) (omega arith) (omega arith) (omega arith)

abbrev null_ping : Request ℤ
null_ping = record { id = some MessageId.null; method = codes "ping"; params = none }

process_request_null_id_example :
    (is_notification null_ping ≡ false)
    × (process_request callbacks null_ping true handler
        ≡ ok (none, set_current_request none (set_current_request (some MessageId.null) handler)))
process_request_null_id_example =
    process_request_null_id callbacks 0 null_ping handler ping_found always_true (boolean true)
      (set_current_request (some MessageId.null) handler) true refl (λ v b t. refl) refl

-- `fromJson` of a string.
abbrev bytes_of : Value ℤ → Outcome ⊥ Bytes
bytes_of json = value_of (as_string json)

-- The parameters have to be a string.
abbrev typed : Callbacks ℤ
typed = record {
  handle = λ h. request_wrapper (λ f. ok null) (λ r. r) bytes_of (plain (λ p. pure null));
  deliver = λ k reply s. ok (tt, s);
  await = λ future. ok null;
}
