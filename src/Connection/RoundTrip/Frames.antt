-- ===== src/Connection/RoundTrip/Frames.antt =====
-- A written header, and a frame behind it, is read back.
use lsp_framework_noec.Base.{
  ℕ, suc, ◌+◌, ◌-◌, ◌^◌, ◌<◌, ◌≡◌, ◌≢◌, refl, ◌∙◌, Bool, true, false, ltb, ◌&&◌, ◌||◌, not, [], ◌∷◌,
  ◌++◌, append_assoc, append-nil, Bytes, codes, length, length-append, All-append, ◌==◌, arith, ok,
  is_space, bytes_eq, to_string_nat,
}
use lsp_framework_noec.Base.Chars.RoundTrip.{to_string_nat-IsDigits}
use lsp_framework_noec.Json.Cursor.{skip_whitespace}
use lsp_framework_noec.Io.{Stream, eof, read-append}
use lsp_framework_noec.Connection.Reader.{max_size, read_content}
use lsp_framework_noec.Connection.Header.{
  default_content_type, default_header, trim_back, trim_whitespace, starts_with, split_at,
  read_header_fields, read_message_header, message_header_string, verify_content_type,
  verify_charset, before_semicolon,
}
use lsp_framework_noec.Connection.Message.{framed, read_frame}
use lsp_framework_noec.Connection.RoundTrip.Lines.{
  fresh, held, peek-fresh, peek-held, IsLine, expect_line_end-held,
}
use lsp_framework_noec.Connection.RoundTrip.Fields.{
  IsDigits-IsLine, written_header, length_field, type_field, fields-step, fields-end,
}

abbrev pub is_line : Bytes → Bool
is_line [] = true
is_line (c ∷ s) = not (c == b'\r' || c == b'\n') && is_line s

pub is_line-IsLine : (s : Bytes) → is_line s ≡ true → IsLine s
is_line-IsLine [] h = tt
is_line-IsLine (c ∷ s) h =
    let others : is_line s ≡ true = ground arith in
    ((ground arith, ground arith), is_line-IsLine s others)

-- The fields of a written header are read back.
pub header_fields-append :
    (lines fuel n : ℕ) (s : Stream) (rest : Bytes)
    → n < 2 ^ 64
    → length (to_string_nat n) + 55 < fuel
    → read_header_fields
        (suc (suc (suc lines)))
        (suc fuel)
        default_header
        (fresh s (message_header_string (written_header n) ++ rest))
      ≡ (ok (written_header n), held b'\r' s (b'\n' ∷ rest))
unfolding message_header_string
header_fields-append lines fuel n s rest h f =
    let digits = to_string_nat n in
    let size : length (codes "ontent-Length: " ++ digits) ≡ 15 + length digits =
      length-append (codes "ontent-Length: ") digits in
    let size2 : length (codes "ontent-Type: " ++ default_content_type) ≡ 54 = refl in
    let line : IsLine (codes "Content-Length: " ++ digits) =
      All-append (λ c. (c ≢ b'\r') × (c ≢ b'\n')) (codes "Content-Length: ") digits
        (is_line-IsLine (codes "Content-Length: ") refl)
        (IsDigits-IsLine digits (to_string_nat-IsDigits n)) in
    rw (append_assoc digits _ rest) (
      fields-step (suc (suc lines)) fuel default_header (written_header n) b'C'
        (codes "ontent-Length: " ++ digits) s _ (omega arith) line (ground arith)
        (length_field n default_header h)
      ∙ fields-step (suc lines) fuel (written_header n) (written_header n) b'C'
          (codes "ontent-Type: " ++ default_content_type) s _ (omega arith)
          (is_line-IsLine (codes "Content-Type: " ++ default_content_type) refl) (ground arith)
          (type_field (written_header n))
      ∙ fields-end lines (suc fuel) (written_header n) s (b'\n' ∷ rest))

-- The header is read with the empty line behind its fields.
pub header-append :
    (k n : ℕ) (s : Stream) (rest : Bytes)
    → n < 2 ^ 64
    → length (to_string_nat n) + 55 < suc (suc k)
    → read_message_header
        (suc (suc (suc k)))
        (fresh s (message_header_string (written_header n) ++ rest))
      ≡ (ok (written_header n), fresh s rest)
unfolding read_message_header
header-append k n s rest h f =
    rw (header_fields-append k (suc (suc k)) n s rest h f) (rw (expect_line_end-held _ s rest) refl)

pub header-held :
    (fuel : ℕ) (c : ℕ) (s : Stream) (i : Bytes)
    → read_message_header (suc fuel) (held c s i) ≡ read_message_header (suc fuel) (fresh s (c ∷ i))
unfolding read_message_header read_header_fields
header-held fuel c s i = rw (peek-held c s i, peek-fresh c s i) refl

pub content-append :
    (xs : Bytes) (s : Stream) (rest : Bytes)
    → length xs < 2 ^ 63
    → read_content (length xs) (fresh s (xs ++ rest)) ≡ (ok xs, fresh s rest)
unfolding read_content
content-append [] s rest h = refl
content-append (c ∷ xs) s rest h =
    let small : ltb max_size (suc (length xs)) ≡ false = ground arith in
    let some_size : (suc (length xs) == 0) ≡ false = ground arith in
    let none_missing : suc (length xs) - suc (length xs) ≡ 0 = omega arith in
    rw (small, some_size) (rw (read-append c xs rest s) (rw none_missing (rw append-nil refl)))

pub default_content_type-valid : verify_content_type default_content_type ≡ ok tt
unfolding verify_content_type starts_with split_at verify_charset before_semicolon trim_whitespace
    trim_back skip_whitespace is_space bytes_eq
default_content_type-valid = refl

pub read_frame-parts :
    (fuel n c : ℕ) (s : Stream) (i behind rest content : Bytes)
    → c ≢ eof
    → read_message_header (suc fuel) (fresh s (c ∷ i)) ≡ (ok (written_header n), fresh s behind)
    → read_content n (fresh s behind) ≡ (ok content, fresh s rest)
    → read_frame (suc fuel) (fresh s (c ∷ i)) ≡ (ok content, fresh s rest)
unfolding read_frame
read_frame-parts fuel n c s i behind rest content e header body =
    let no_eof : (c == eof) ≡ false = ground arith in
    rw (peek-fresh c s i) (
      rw no_eof
        (rw (header-held fuel c s i) (rw header (rw body (rw default_content_type-valid refl)))))

-- Content that was framed is read back, and the reader stands behind it, if a string can hold the
-- content and the fuel is above the length of a header field.
pub read_frame-framed :
    (k : ℕ) (content : Bytes) (s : Stream) (rest : Bytes)
    → length content < 2 ^ 63
    → length (to_string_nat (length content)) + 55 < suc (suc k)
    → read_frame (suc (suc (suc k))) (fresh s (framed content ++ rest)) ≡ (ok content, fresh s rest)
unfolding framed message_header_string
read_frame-framed k content s rest h f =
    let n = length content in
    rw (append_assoc (message_header_string (written_header n)) content rest) (
      read_frame-parts (suc (suc k)) n b'C' s _ (content ++ rest) rest content (ground arith)
        (header-append k n s (content ++ rest) (omega arith) f) (content-append content s rest h))
