-- ===== src/Json/Scalar/Strings.antt =====
-- `parseString` reads back a literal that `toStringLiteral` writes.
use lsp_framework_noec.Base.{
  ℕ, ◌≡◌, ◌≢◌, refl, ap, false, [], ◌∷◌, ◌++◌, append_assoc, Bytes, ◌==◌, ◌/◌, ◌%◌, ◌<◌, ok, arith,
}
use lsp_framework_noec.Json.Literal.{escape_char, escape_chars, to_string_literal, hex_lookup}
use lsp_framework_noec.Json.Literal.RoundTrip.{
  Escaping, named, coded, plain, escaping, from_string_literal-to_string_literal,
}
use lsp_framework_noec.Json.Scalar.{scan_string, parse_string}

-- A character that is no backslash, quote or line end is passed.
scan_string_plain :
    (size c : ℕ) (rest : Bytes) {passed left : Bytes}
    → c ≢ b'\\'
    → c ≢ b'"'
    → c ≢ b'\n'
    → scan_string size false rest ≡ ok (passed, left)
    → scan_string size false (c ∷ rest) ≡ ok (c ∷ passed, left)
unfolding scan_string
scan_string_plain size c rest n92 n34 n10 h =
    let no_escape : (c == b'\\') ≡ false = ground arith in
    let no_quote : (c == b'"') ≡ false = ground arith in
    let no_line : (c == b'\n') ≡ false = ground arith in rw (no_line, no_quote, no_escape) (rw h)

-- So is a backslash with the character behind it.
scan_string_escaped :
    (size x : ℕ) (rest : Bytes) {passed left : Bytes}
    → x ≢ b'\n'
    → scan_string size false rest ≡ ok (passed, left)
    → scan_string size false (b'\\' ∷ x ∷ rest) ≡ ok (b'\\' ∷ x ∷ passed, left)
unfolding scan_string
scan_string_escaped size x rest n h =
    let no_line : (x == b'\n') ≡ false = ground arith in rw no_line (rw h)

hex_lookup_plain :
    (size n : ℕ) (rest : Bytes) {passed left : Bytes}
    → n < 16
    → scan_string size false rest ≡ ok (passed, left)
    → scan_string size false (hex_lookup n ∷ rest) ≡ ok (hex_lookup n ∷ passed, left)
unfolding hex_lookup
hex_lookup_plain size n rest h =
    scan_string_plain size (hex_lookup n) rest (ground arith) (ground arith) (ground arith)

scan_string-Escaping :
    (size c : ℕ) (rest : Bytes) {passed left : Bytes}
    → Escaping c
    → scan_string size false rest ≡ ok (passed, left)
    → scan_string size false (escape_char c ++ rest) ≡ ok (escape_char c ++ passed, left)
scan_string-Escaping size c rest (named x e u n) h = rw e (scan_string_escaped size x rest n h)
scan_string-Escaping size c rest (coded small e) h = rw e (
    scan_string_escaped size b'u' _ (omega arith) (
      scan_string_plain size b'0' _ (omega arith) (omega arith) (omega arith) (
        scan_string_plain size b'0' _ (omega arith) (omega arith) (omega arith) (
          hex_lookup_plain size (c / 16) _ (omega arith)
            (hex_lookup_plain size (c % 16) rest (omega arith) h)))))
scan_string-Escaping size c rest (plain e n92 n34 n10) h =
    rw e (scan_string_plain size c rest n92 n34 n10 h)

scan_string-escape_chars :
    (size : ℕ) (s rest : Bytes)
    → scan_string size false (escape_chars s ++ b'"' ∷ rest)
      ≡ ok (escape_chars s ++ b'"' ∷ [], rest)
scan_string-escape_chars size [] rest = unfold scan_string in refl
scan_string-escape_chars size (c ∷ s) rest =
    rw
      (
        append_assoc (escape_char c) (escape_chars s) (b'"' ∷ rest),
        append_assoc (escape_char c) (escape_chars s) (b'"' ∷ []),
      )
      (scan_string-Escaping size c (escape_chars s ++ b'"' ∷ rest) (escaping c)
        (scan_string-escape_chars size s rest))

-- A literal that `toStringLiteral` writes is read back as one token: the string, and the text behind
-- the literal.
pub parse_string-to_string_literal :
    (size : ℕ) (s rest : Bytes) → parse_string size (to_string_literal s ++ rest) ≡ ok (s, rest)
unfolding parse_string to_string_literal
parse_string-to_string_literal size s rest = rw (append_assoc (escape_chars s) (b'"' ∷ []) rest) (
    rw (scan_string-escape_chars size s rest)
      (ap (λ t. ok (t, rest)) (from_string_literal-to_string_literal s)))
