-- ===== src/Connection/Message.antt =====
-- `readMessage`, `writeMessage` and `writeMessageData` of lsp/connection.cpp.
use lsp_framework_noec.Base.{
  ℕ, ◌+◌, false, List, ◌++◌, none, Bytes, codes, length, ◌==◌, if◌then◌else◌, ℤ, negsuc, Outcome,
  ok, unexpected, terminate, out_of_fuel,
}
use lsp_framework_noec.Json.Value.{Value}
use lsp_framework_noec.Json.Floats.{Floats}
use lsp_framework_noec.Json.Cursor
use lsp_framework_noec.Json.Parser.{parse}
use lsp_framework_noec.Json.Printer.{stringify}
use lsp_framework_noec.Jsonrpc
use lsp_framework_noec.Jsonrpc.{
  Message, MessageId, response, message_to_json, message_batch_to_json, message_from_json,
  message_batch_from_json, create_error_response,
}
use lsp_framework_noec.Io
use lsp_framework_noec.Io.{Stream, eof}
use lsp_framework_noec.Connection.Reader.{
  ConnectionError, connection_lost, io_failed, parse_failed, protocol_failed, not_object_or_array,
  Reader, M, ◌>>=◌, pure, fail, peek, read_content,
}
use lsp_framework_noec.Connection.Header.{
  default_content_type, lift, read_message_header, verify_content_type, message_header_string,
}

abbrev pub not_structured_text : Bytes
not_structured_text = codes "Message must be a json object or array"

-- `Connection::Message`.
pub data MessageOrBatch (D : Type 0) : Type 0 where
  message : Message D → MessageOrBatch D
  batch : List (Message D) → MessageOrBatch D

abbrev pub parse_error : ℤ
parse_error = negsuc 32699

abbrev pub invalid_request : ℤ
invalid_request = negsuc 32599

abbrev pub Result : Type 0 → Type 0
Result A = Outcome ConnectionError A × Stream

-- The bytes that `writeMessageData` writes.
unfoldable pub framed : Bytes → Bytes
framed content =
    message_header_string
      (record { content_length = length content; content_type = default_content_type })
    ++ content

unfoldable pub write_message_data : Bytes → Stream → Result (Unit {0})
write_message_data content s =
    let (done, s') = Io.write (framed content) s in
    (if done then ok tt else unexpected io_failed, s')

-- The content of the next message, its header read and checked.
unfoldable pub read_frame : ℕ → M Bytes
read_frame fuel = do
  c ← peek
  let frame = (do
    header ← read_message_header fuel
    content ← read_content header.content_length
    _ ← lift (verify_content_type header.content_type)
    pure content)
  if c == eof then fail connection_lost else frame

module _ {D : Type 0} where
  unfoldable pub message_json : MessageOrBatch D → Value D
  message_json (message m) = Value.object (message_to_json m)
  message_json (batch ms) = Value.array (message_batch_to_json ms)

module _ (F : Floats) where
  open F use {Double}

  unfoldable pub write_message : MessageOrBatch Double → Stream → Result (Unit {0})
  write_message m s = write_message_data (stringify F (message_json m) false) s

  -- `(void)writeMessage(createErrorResponse(json::Null(), code, text))`, then the error.
  unfoldable pub answer_error :
      ℤ → Bytes → ConnectionError → Stream → Result (MessageOrBatch Double)
  answer_error code text error s = (
    unexpected error,
    (write_message (message (response (create_error_response MessageId.null code text none))) s).1,
  )

  -- A message or a batch that was read, or its protocol error.
  unfoldable pub conclude :
      Outcome Jsonrpc.ProtocolError (MessageOrBatch Double)
      → Stream
      → Result (MessageOrBatch Double)
  conclude (ok m) s = (ok m, s)
  conclude (unexpected e) s =
      answer_error invalid_request (Jsonrpc.describe e) (protocol_failed e) s
  conclude terminate s = (terminate, s)
  conclude out_of_fuel s = (out_of_fuel, s)

  abbrev pub as_message :
      Outcome Jsonrpc.ProtocolError (Message Double)
      → Outcome Jsonrpc.ProtocolError (MessageOrBatch Double)
  as_message (ok m) = ok (message m)
  as_message (unexpected e) = unexpected e
  as_message terminate = terminate
  as_message out_of_fuel = out_of_fuel

  abbrev pub as_batch :
      Outcome Jsonrpc.ProtocolError (List (Message Double))
      → Outcome Jsonrpc.ProtocolError (MessageOrBatch Double)
  as_batch (ok ms) = ok (batch ms)
  as_batch (unexpected e) = unexpected e
  as_batch terminate = terminate
  as_batch out_of_fuel = out_of_fuel

  unfoldable pub receive_json : Value Double → Stream → Result (MessageOrBatch Double)
  receive_json (Value.object fs) s = conclude (as_message (message_from_json F fs)) s
  receive_json (Value.array xs) s = conclude (as_batch (message_batch_from_json F xs)) s
  receive_json _ s = answer_error invalid_request not_structured_text not_object_or_array s

  unfoldable pub receive :
      Outcome Cursor.ParseError (Value Double) → Stream → Result (MessageOrBatch Double)
  receive (ok json) s = receive_json json s
  receive (unexpected e) s = answer_error parse_error (Cursor.describe e.what) (parse_failed e) s
  receive terminate s = (terminate, s)
  receive out_of_fuel s = (out_of_fuel, s)

  unfoldable pub after_frame :
      Outcome ConnectionError Bytes × Reader → Result (MessageOrBatch Double)
  after_frame (ok content, r) = receive (parse F content) r.stream
  after_frame (unexpected e, r) = (unexpected e, r.stream)
  after_frame (terminate, r) = (terminate, r.stream)
  after_frame (out_of_fuel, r) = (out_of_fuel, r.stream)

  -- Each round of the two header loops takes a character of the input.
  unfoldable pub read_message : Stream → Result (MessageOrBatch Double)
  read_message s =
      after_frame (read_frame (length s.input + 2) (record { stream = s; peeked = none }))
