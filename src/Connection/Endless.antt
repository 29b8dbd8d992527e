-- ===== src/Connection/Endless.antt =====
-- A header field without its line end, where the input ends: the loop of
-- `readNextMessageHeaderField` of lsp/connection.cpp tests for '\r' and '\n' and not for `Eof`.
use lsp_framework_noec.Base.{
  ℕ, zero, suc, ◌≡◌, ◌≢◌, refl, ap, ◌∙◌, true, false, ◌&&◌, ◌||◌, [], ◌∷◌, ◌++◌, Bytes, ◌==◌, arith,
  Outcome, out_of_fuel,
}
use lsp_framework_noec.Io.{Stream, eof, read}
use lsp_framework_noec.Connection.Reader.{ConnectionError, M, bind_outcome, Reader, peek_char}
use lsp_framework_noec.Connection.Header.{
  MessageHeader, default_header, read_line, read_next_header_field, read_header_fields,
  read_message_header,
}
use lsp_framework_noec.Connection.Message.{read_frame}
use lsp_framework_noec.Connection.RoundTrip.Lines.{
  fresh, held, IsLine, get-held, peek-fresh, peek-held, read_line-held,
}

-- The stream behind a read at its end.
abbrev ended : Stream → Stream
ended s = record s { input = []; input_error = (true && s.input_breaks) || s.input_error }

peek-end : (s : Stream) → peek_char (fresh s []) ≡ (eof, held eof (ended s) [])
unfolding peek_char read
peek-end s = refl

read_line-endless :
    (fuel : ℕ) (line text : Bytes) (s : Stream)
    → IsLine text
    → (read_line fuel line (fresh s text)).0 ≡ out_of_fuel
unfolding read_line
read_line-endless zero line text s h = refl
read_line-endless (suc fuel) line [] s h =
    rw (peek-end s)
      (rw (get-held eof (ended s) []) (read_line-endless fuel (line ++ eof ∷ []) [] (ended s) tt))
read_line-endless (suc fuel) line (c ∷ text) s ((n13, n10), h) =
    let no_return : (c == b'\r') ≡ false = ground arith in
    let no_feed : (c == b'\n') ≡ false = ground arith in
    rw (peek-fresh c s text) (
      rw no_return
        (rw (get-held c s text) (rw no_feed (read_line-endless fuel (line ++ c ∷ []) text s h))))

bind-out_of_fuel :
    {A B : Type 0} (f : A → M B) (p : Outcome ConnectionError A × Reader)
    → p.0 ≡ out_of_fuel
    → (bind_outcome f p).0 ≡ out_of_fuel
bind-out_of_fuel f (o, r) e = rw e refl

fields-endless :
    (lines fuel c : ℕ) (header : MessageHeader) (text : Bytes) (s : Stream)
    → IsLine (c ∷ text)
    → c ≢ eof
    → (read_header_fields lines (suc fuel) header (held c s text)).0 ≡ out_of_fuel
unfolding read_header_fields read_next_header_field
fields-endless zero fuel c header text s h n = refl
fields-endless (suc lines) fuel c header text s ((n13, n10), h) n =
    let no_return : (c == b'\r') ≡ false = ground arith in
    let no_eof : (c == eof) ≡ false = ground arith in
    rw (peek-held c s text) (
      rw no_return (
        rw (peek-held c s text) (
          rw no_eof (
            bind-out_of_fuel _ _ (
              bind-out_of_fuel _ (read_line (suc fuel) [] (held c s text)) (
                ap (λ p. p.0) (read_line-held fuel [] c s text)
                ∙ read_line-endless (suc fuel) [] (c ∷ text) s ((n13, n10), h)))))))

-- Where the input ends in the first header field of a message, before any line end and behind a first
-- byte that is not the end of the stream, no amount of fuel
-- brings the reader of the message to an end: it reports no error.
pub read_frame-endless :
    (fuel c : ℕ) (text : Bytes) (s : Stream)
    → IsLine (c ∷ text)
    → c ≢ eof
    → (read_frame (suc fuel) (fresh s (c ∷ text))).0 ≡ out_of_fuel
unfolding read_frame read_message_header
read_frame-endless fuel c text s h n =
    let no_eof : (c == eof) ≡ false = ground arith in
    rw (peek-fresh c s text) (
      rw no_eof (
        bind-out_of_fuel _ _
          (bind-out_of_fuel _ _ (fields-endless (suc fuel) fuel c default_header text s h n))))
