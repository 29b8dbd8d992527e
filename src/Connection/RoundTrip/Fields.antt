-- ===== src/Connection/RoundTrip/Fields.antt =====
-- Header fields that stand in front of the input.
use lsp_framework_noec.Base.{
  ℕ, suc, ◌^◌, ◌<◌, ◌≡◌, ◌≢◌, refl, ap, sym, ◌∙◌, true, false, [], ◌∷◌, ◌++◌, append-nil, Bytes,
  codes, length, ◌==◌, arith, ok, is_space, is_digit, from_chars_unsigned, to_string_nat, to_lower,
  success,
}
use lsp_framework_noec.Base.Chars.RoundTrip.{
  IsDigits, to_string_nat-IsDigits, from_chars_unsigned-to_string,
}
use lsp_framework_noec.Json.Cursor.{skip_whitespace}
use lsp_framework_noec.Io.{Stream, eof}
use lsp_framework_noec.Connection.Header.{
  MessageHeader, default_content_type, trim_back, trim_whitespace, equal_case_insensitive,
  starts_with, split_at, set_field, parse_header_value, read_next_header_field, read_header_fields,
}
use lsp_framework_noec.Connection.RoundTrip.Lines.{
  fresh, held, peek-fresh, peek-held, IsLine, expect_line_end-held, read_line-held,
  read_line-append,
}

-- A field is read with its line end, whether its first character was peeked at or not.
pub field-append :
    (fuel : ℕ) (header header' : MessageHeader) (c : ℕ) (text : Bytes) (s : Stream) (rest : Bytes)
    → length text < fuel
    → IsLine (c ∷ text)
    → c ≢ eof
    → parse_header_value header (c ∷ text) ≡ ok header'
    → read_next_header_field (suc fuel) header (held c s (text ++ (b'\r' ∷ b'\n' ∷ rest)))
      ≡ (ok header', fresh s rest)
unfolding read_next_header_field
field-append fuel header header' c text s rest h l n p =
    let no_eof : (c == eof) ≡ false = ground arith in
    rw (peek-held c s (text ++ (b'\r' ∷ b'\n' ∷ rest))) (
      rw no_eof (
        rw (read_line-held fuel [] c s (text ++ (b'\r' ∷ b'\n' ∷ rest))) (
          rw (read_line-append (suc fuel) [] (c ∷ text) s (b'\n' ∷ rest) (omega arith) l)
            (rw p (rw (expect_line_end-held _ s rest))))))

-- One step of the header's loop, where a field stands in front.
pub fields-step :
    (lines fuel : ℕ) (header header' : MessageHeader) (c : ℕ) (text : Bytes) (s : Stream)
    (rest : Bytes)
    → length text < fuel
    → IsLine (c ∷ text)
    → c ≢ eof
    → parse_header_value header (c ∷ text) ≡ ok header'
    → read_header_fields
        (suc lines)
        (suc fuel)
        header
        (fresh s (c ∷ (text ++ (b'\r' ∷ b'\n' ∷ rest))))
      ≡ read_header_fields lines (suc fuel) header' (fresh s rest)
unfolding read_header_fields
fields-step lines fuel header header' c text s rest h l n p =
    let no_return : (c == b'\r') ≡ false = ground arith in
    rw (peek-fresh c s (text ++ (b'\r' ∷ b'\n' ∷ rest)))
      (rw no_return (rw (field-append fuel header header' c text s rest h l n p) refl))

pub fields-end :
    (lines fuel : ℕ) (header : MessageHeader) (s : Stream) (rest : Bytes)
    → read_header_fields (suc lines) fuel header (fresh s (b'\r' ∷ rest))
      ≡ (ok header, held b'\r' s rest)
unfolding read_header_fields
fields-end lines fuel header s rest = rw (peek-fresh b'\r' s rest) refl

-- A text of digits is its own trimming.
pub digit-not_space : (c : ℕ) → is_digit c ≡ true → is_space c ≡ false
unfolding is_digit is_space
digit-not_space c d = ground arith

pub digit-IsText : (c : ℕ) → is_digit c ≡ true → (c ≢ b'\r') × (c ≢ b'\n')
unfolding is_digit
digit-IsText c d = (ground arith, ground arith)

pub trim_back-digits : (s : Bytes) → IsDigits s → trim_back s ≡ s
unfolding trim_back
trim_back-digits [] d = refl
trim_back-digits (c ∷ s) (d, ds) = rw (digit-not_space c d) (rw (trim_back-digits s ds) refl)

pub skip_whitespace-digits : (s : Bytes) → IsDigits s → skip_whitespace s ≡ s
unfolding skip_whitespace
skip_whitespace-digits [] d = refl
skip_whitespace-digits (c ∷ s) (d, ds) = rw (digit-not_space c d) refl

pub trim_whitespace-digits : (s : Bytes) → IsDigits s → trim_whitespace (b' ' ∷ s) ≡ s
unfolding trim_whitespace skip_whitespace is_space
trim_whitespace-digits s d = rw (skip_whitespace-digits s d) (trim_back-digits s d)

pub from_chars_unsigned-digits :
    (n : ℕ)
    → n < 2 ^ 64
    → from_chars_unsigned 64 (to_string_nat n) ≡ record { value = n; ec = success; rest = [] }
from_chars_unsigned-digits n h =
    ap (from_chars_unsigned 64) (sym (append-nil (to_string_nat n)))
    ∙ from_chars_unsigned-to_string 64 n [] h refl

-- The header of `n` bytes of content.
abbrev pub written_header : ℕ → MessageHeader
written_header n = record { content_length = n; content_type = default_content_type }

-- The field that gives a length.
pub length_field :
    (n : ℕ) (header : MessageHeader)
    → n < 2 ^ 64
    → parse_header_value header (codes "Content-Length: " ++ to_string_nat n)
      ≡ ok (record header { content_length = n })
unfolding parse_header_value split_at starts_with set_field equal_case_insensitive trim_whitespace
    trim_back skip_whitespace is_space to_lower
length_field n header h =
    rw (trim_whitespace-digits (to_string_nat n) (to_string_nat-IsDigits n))
      (rw (from_chars_unsigned-digits n h) refl)

pub type_field :
    (header : MessageHeader)
    → parse_header_value header (codes "Content-Type: " ++ default_content_type)
      ≡ ok (record header { content_type = default_content_type })
unfolding parse_header_value split_at starts_with set_field equal_case_insensitive trim_whitespace
    trim_back skip_whitespace is_space to_lower
type_field header = refl

pub IsDigits-IsLine : (s : Bytes) → IsDigits s → IsLine s
IsDigits-IsLine [] d = tt
IsDigits-IsLine (c ∷ s) (d, ds) = (digit-IsText c d, IsDigits-IsLine s ds)
