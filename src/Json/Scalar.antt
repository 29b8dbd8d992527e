-- ===== src/Json/Scalar.antt =====
-- Strings, numbers and identifiers: `parseString`, `parseNumber`, `parseIdentifier` and
-- `parseSimpleValue` of lsp/json/json.cpp. Each takes the text from `m_pos` on and returns its
-- result with the text that is left.
pub mod Strings
pub mod RoundTrip
use lsp_framework_noec.Base.{
  ℕ, ◌-◌, Bool, true, false, not, ◌&&◌, ◌||◌, [], ◌∷◌, ◌++◌, Option, none, some, Bytes, codes,
  length, ltb, ◌==◌, bytes_eq, if◌then◌else◌, is_alnum, is_alpha, is_digit, from_chars_signed,
  FromChars, fits, ℤ, Outcome, ok, unexpected, terminate, ◌>>=◌,
}
use lsp_framework_noec.Json.Value.{Value, null, boolean, integer, decimal, string}
use lsp_framework_noec.Json.Floats.{Floats}
use lsp_framework_noec.Json.Literal.{is_success, is_nil, from_string_literal}
use lsp_framework_noec.Json.Cursor.{
  Complaint, ParseError, fail, front, tail, string_expected, unmatched_quote, unexpected_token,
  invalid_number, unexpected_identifier,
}

-- The loop of `parseString` behind the opening quote: the characters that it passes, the closing
-- quote among them, and the text that is left.
unfoldable pub scan_string : ℕ → Bool → Bytes → Outcome ParseError (Bytes × Bytes)
scan_string size has_escape [] = fail size unmatched_quote []
scan_string size has_escape (c ∷ s) =
    let next = scan_string size (not has_escape && c == b'\\') s in
    let pass = (do (passed, rest) ← next; ok (c ∷ passed, rest)) in
    if c == b'\n'
    then fail size unmatched_quote (c ∷ s)
    else if not has_escape && c == b'"'
    then ok (c ∷ [], s)
    else pass

unfoldable pub parse_string : ℕ → Bytes → Outcome ParseError (Bytes × Bytes)
parse_string size [] = fail size string_expected []
parse_string size (c ∷ s) =
    let found = (do
      (passed, rest) ← scan_string size false s
      ok (from_string_literal (c ∷ passed), rest)) in
    if c == b'"' then found else fail size string_expected (c ∷ s)

unfoldable pub is_decimal_mark : ℕ → Bool
is_decimal_mark c = c == b'.' || c == b'e' || c == b'E'

unfoldable pub is_number_char : ℕ → Bool
is_number_char c = is_alnum c || c == b'-' || c == b'.' || c == b'e' || c == b'E'

-- The longest front of a text whose characters pass the test, and what is left.
unfoldable pub span : (ℕ → Bool) → Bytes → Bytes × Bytes
span test [] = ([], [])
span test (c ∷ s) = if test c then (c ∷ (span test s).0, (span test s).1) else ([], c ∷ s)

-- `isDecimal` when the loop has ended.
unfoldable pub any_decimal_mark : Bytes → Bool
any_decimal_mark [] = false
any_decimal_mark (c ∷ s) = is_decimal_mark c || any_decimal_mark s

module _ (F : Floats) where
  open F use {Double, stod, of_int}

  -- The branch `if(isDecimal)`, on the text of the number; `stod` may throw.
  unfoldable pub parse_decimal : ℕ → Bytes → Bytes → Outcome ParseError (Value Double)
  parse_decimal size text at = elim (stod text) [
    | none ↦ terminate
    | some (d, idx) ↦
        if ltb idx (length text) then fail size (invalid_number text) at else ok (decimal d)
  ]

  unfoldable pub parse_integer : ℕ → Bytes → Bytes → Outcome ParseError (Value Double)
  parse_integer size text at =
      let r = from_chars_signed 63 text in
      if not (is_success r.ec) || not (is_nil r.rest)
      then fail size (invalid_number text) at
      else if fits 31 r.value
      then ok (integer r.value)
      else ok (decimal (of_int r.value))

  unfoldable pub parse_number : ℕ → Bytes → Outcome ParseError (Value Double × Bytes)
  parse_number size at = do
    let text = (span is_number_char at).0
    v ← if any_decimal_mark text then parse_decimal size text at else parse_integer size text at
    ok (v, (span is_number_char at).1)

  unfoldable pub parse_identifier : ℕ → Bytes → Outcome ParseError (Value Double × Bytes)
  parse_identifier size at =
      let identifier = (span is_alnum at).0 in
      let rest = (span is_alnum at).1 in
      if bytes_eq identifier (codes "true")
      then ok (boolean true, rest)
      else if bytes_eq identifier (codes "false")
      then ok (boolean false, rest)
      else if bytes_eq identifier (codes "null")
      then ok (null, rest)
      else fail size (unexpected_identifier identifier) rest

  unfoldable pub parse_simple_value : ℕ → Bytes → Outcome ParseError (Value Double × Bytes)
  parse_simple_value size at =
      let text = (do (s, rest) ← parse_string size at; ok (string s, rest)) in
      if front at == b'"'
      then text
      else if is_digit (front at) || front at == b'-'
      then parse_number size at
      else if is_alpha (front at)
      then parse_identifier size at
      else fail size unexpected_token at
