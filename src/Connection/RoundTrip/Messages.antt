-- ===== src/Connection/RoundTrip/Messages.antt =====
-- Whole messages.
use lsp_framework_noec.Base.{
  suc, ◌+◌, ◌-◌, ◌^◌, ◌<◌, ◌≡◌, ◌≢◌, refl, ◌∙◌, false, [], ◌++◌, All, Bytes, codes, length,
  length-append, arith, ok, to_string_nat,
}
use lsp_framework_noec.Json.Floats.{Floats}
use lsp_framework_noec.Json.Printer.{stringify}
use lsp_framework_noec.Json.Printer.Text.{Prints}
use lsp_framework_noec.Json.RoundTrip.Whole.{parse-stringify}
use lsp_framework_noec.Jsonrpc.RoundTrip.{
  IsSound, message_from_json-message_to_json, message_batch_from_json-message_batch_to_json,
}
use lsp_framework_noec.Io.{Stream, write}
use lsp_framework_noec.Connection.Header.{message_header_string}
use lsp_framework_noec.Connection.Message.{
  MessageOrBatch, message, batch, message_json, framed, write_message_data, write_message,
  read_frame, read_message, receive, receive_json, after_frame, conclude,
}
use lsp_framework_noec.Connection.RoundTrip.Lines.{fresh}
use lsp_framework_noec.Connection.RoundTrip.Frames.{read_frame-framed}

length-framed :
    (content : Bytes)
    → length (framed content) ≡ length (to_string_nat (length content)) + (77 + length content)
unfolding framed message_header_string
length-framed content =
    let digits = to_string_nat (length content) in
    let behind = codes "\r\nContent-Type: application/vscode-jsonrpc; charset=utf-8\r\n\r\n" in
    let front : length (codes "Content-Length: " ++ (digits ++ behind))
        ≡ 16 + length (digits ++ behind) =
      length-append (codes "Content-Length: ") (digits ++ behind) in
    let back : length (digits ++ behind) ≡ length digits + 61 = length-append digits behind in
    length-append (codes "Content-Length: " ++ (digits ++ behind)) content
    ∙ rw (front, back) (omega arith)

-- The reader of a message never runs out of fuel on one that was written.
read_frame_fuel :
    (content : Bytes) (s : Stream) (rest : Bytes)
    → length content < 2 ^ 63
    → read_frame (length (framed content ++ rest) + 2) (fresh s (framed content ++ rest))
      ≡ (ok content, fresh s rest)
read_frame_fuel content s rest h =
    let total = length-append (framed content) rest in
    let size = length-framed content in
    let k = length (framed content ++ rest) - 1 in
    let fuel : length (framed content ++ rest) + 2 ≡ suc (suc (suc k)) = omega arith in
    rw fuel (read_frame-framed k content s rest h (omega arith))

module _ {D : Type 0} where
  -- The messages that JSON-RPC allows: see `IsSound`; a batch has a message.
  abbrev pub IsSendable : MessageOrBatch D → Type 0
  IsSendable (message m) = IsSound m
  IsSendable (batch ms) = (ms ≢ []) × All IsSound ms

module _ (F : Floats) where
  open F use {Double}

  receive_json-message_json :
      (m : MessageOrBatch Double) (s : Stream)
      → IsSendable m
      → receive_json F (message_json m) s ≡ (ok m, s)
  unfolding receive_json message_json conclude
  receive_json-message_json (message m) s h = rw (message_from_json-message_to_json F m h) refl
  receive_json-message_json (batch ms) s (n, h) =
      rw (message_batch_from_json-message_batch_to_json F ms n h) refl

  -- A message that comes through a connection as it was: see `read_message-write_message` below.
  pub record Passes (m : MessageOrBatch Double) : Type 0 where
    pub sendable : IsSendable m
    pub prints : Prints F (message_json m)
    pub short : length (stringify F (message_json m) false) < 2 ^ 63

  -- What one connection writes to a fresh stream that works, the connection at the other end reads:
  -- a message or a batch that is sound and that can be printed, with a text that a string can hold,
  -- comes back as it was, and the reader stands behind it.
  pub read_message-write_message :
      (m : MessageOrBatch Double) (sender receiver : Stream) (rest : Bytes)
      → sender.output ≡ []
      → sender.output_broken ≡ false
      → IsSendable m
      → Prints F (message_json m)
      → length (stringify F (message_json m) false) < 2 ^ 63
      → ((write_message F m sender).0 ≡ ok tt)
        × (read_message F (record receiver { input = (write_message F m sender).1.output ++ rest })
            ≡ (ok m, record receiver { input = rest }))
  unfolding write_message write_message_data read_message after_frame receive write
  read_message-write_message m sender receiver rest empty works sound prints size = rw works (
      rw empty (
        refl,
        rw (read_frame_fuel (stringify F (message_json m) false) receiver rest size) (
            rw (parse-stringify F (message_json m) false prints)
              (receive_json-message_json m (record receiver { input = rest }) sound)),
      ))
