-- ===== src/Uri/Coded.antt =====
-- `Uri::decode` takes back what `Uri::encode` does.
use lsp_framework_noec.Base.{
  ℕ, ◌+◌, ◌*◌, ◌/◌, ◌%◌, ◌<◌, ◌≡◌, refl, ap, ◌∙◌, true, false, [], ◌∷◌, some, Bytes, IsBytes, ◌==◌,
  inl, inr, Bool-cases, arith, from_chars_hex, scan_hex, starts_hex, success, ltb, ◌^◌, is_alnum,
  is_alpha, is_digit,
}
use lsp_framework_noec.Json.Literal.{hex_lookup}
use lsp_framework_noec.Json.Literal.RoundTrip.{hex_value-hex_lookup, scan_hex_step}
use lsp_framework_noec.Uri.Coding.{
  has_char, is_plain, encode_char, encode, decode_byte, decode_chars, decode, put,
}

scan_hex_byte :
    (c : ℕ) → c < 256 → scan_hex 0 (hex_lookup (c / 16) ∷ hex_lookup (c % 16) ∷ []) ≡ (c, [])
scan_hex_byte c h =
    scan_hex_step 0 (hex_lookup (c / 16)) (c / 16) _ (hex_value-hex_lookup (c / 16) (omega arith))
    ∙ scan_hex_step (0 * 16 + c / 16) (hex_lookup (c % 16)) (c % 16) _
        (hex_value-hex_lookup (c % 16) (omega arith))
    ∙ unfold scan_hex in ap (λ n. (n, [])) (omega arith)

from_chars_hex_byte :
    (c : ℕ)
    → c < 256
    → from_chars_hex 8 (hex_lookup (c / 16) ∷ hex_lookup (c % 16) ∷ [])
      ≡ record { value = c; ec = success; rest = [] }
unfolding from_chars_hex
from_chars_hex_byte c h =
    let fits : ltb c (2 ^ 8) ≡ true = ground arith in
    rw (scan_hex_byte c h)
      (rw (hex_value-hex_lookup (c / 16) (omega arith), starts_hex) (rw fits refl))

decode_byte-hex_lookup :
    (c : ℕ) → c < 256 → decode_byte (hex_lookup (c / 16)) (hex_lookup (c % 16)) ≡ some c
unfolding decode_byte
decode_byte-hex_lookup c h = rw (from_chars_hex_byte c h) refl

-- A percent sign is not copied, unless it is excluded.
is_plain_percent : (exclude : Bytes) → has_char exclude b'%' ≡ false → is_plain exclude b'%' ≡ false
unfolding is_plain is_alnum is_alpha is_digit
is_plain_percent exclude h = rw h refl

is_plain_other :
    (c : ℕ) (exclude : Bytes)
    → is_plain exclude c ≡ true
    → has_char exclude b'%' ≡ false
    → (c == b'%') ≡ false
is_plain_other c exclude plain p = elim (Bool-cases (c == b'%')) [
  | inl e ↦
      let same : c ≡ b'%' = ground arith in
      let not_plain = is_plain_percent exclude p in cc (same, plain, not_plain)
  | inr n ↦ n
]

decode_chars_escape :
    (c : ℕ) (s : Bytes)
    → c < 256
    → decode_chars (b'%' ∷ hex_lookup (c / 16) ∷ hex_lookup (c % 16) ∷ s) ≡ put c (decode_chars s)
unfolding decode_chars
decode_chars_escape c s h = rw (decode_byte-hex_lookup c h) refl

decode_chars_other :
    (c : ℕ) (s : Bytes) → (c == b'%') ≡ false → decode_chars (c ∷ s) ≡ put c (decode_chars s)
unfolding decode_chars
decode_chars_other c [] h = refl
decode_chars_other c (a ∷ []) h = refl
decode_chars_other c (a ∷ b ∷ s) h = rw (h, decode_chars) refl

decode_chars-encode :
    (s exclude : Bytes)
    → IsBytes s
    → has_char exclude b'%' ≡ false
    → decode_chars (encode s exclude) ≡ some s
unfolding encode encode_char
decode_chars-encode [] exclude h p = unfold decode_chars in refl
decode_chars-encode (c ∷ s) exclude (hc, hs) p = elim (Bool-cases (is_plain exclude c)) [
  | inl plain ↦
      let other : (c == b'%') ≡ false = is_plain_other c exclude plain p in
      rw plain (
        decode_chars_other c (encode s exclude) other
        ∙ rw (decode_chars-encode s exclude hs p) refl)
  | inr escaped ↦
      rw escaped
        (decode_chars_escape c (encode s exclude) hc ∙ rw (decode_chars-encode s exclude hs p) refl)
]

-- Decoding gives back any bytes that were encoded, if the percent sign is not among the excluded
-- characters.
pub decode-encode :
    (s exclude : Bytes) → IsBytes s → has_char exclude b'%' ≡ false → decode (encode s exclude) ≡ s
unfolding decode
decode-encode s exclude h p = rw (decode_chars-encode s exclude h p, decode) refl
