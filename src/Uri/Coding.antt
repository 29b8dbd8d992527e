-- ===== src/Uri/Coding.antt =====
-- `Uri::encode`, `Uri::decode` and `normalizeEncodedCase` of lsp/uri.cpp, on the range they change.
use lsp_framework_noec.Base.{
  ℕ, zero, suc, ◌/◌, ◌%◌, Bool, true, false, ◌&&◌, ◌||◌, [], ◌∷◌, ◌++◌, Option, none, some, Bytes,
  length, ◌==◌, leb, if◌then◌else◌, is_alnum, to_upper, from_chars_hex,
}
use lsp_framework_noec.Json.Literal.{hex_lookup, is_success, is_nil}

-- `exclude.find(c) != npos`.
unfoldable pub has_char : Bytes → ℕ → Bool
has_char [] c = false
has_char (e ∷ exclude) c = e == c || has_char exclude c

-- The characters that `encode` copies.
unfoldable pub is_plain : Bytes → ℕ → Bool
is_plain exclude c = has_char exclude c || is_alnum c || c == b'_' || c == b'.' || c == b'-'

unfoldable pub encode_char : Bytes → ℕ → Bytes
encode_char exclude c =
    if is_plain exclude c then c ∷ [] else b'%' ∷ hex_lookup (c / 16) ∷ hex_lookup (c % 16) ∷ []

unfoldable pub encode : Bytes → Bytes → Bytes
encode [] exclude = []
encode (c ∷ s) exclude = encode_char exclude c ++ encode s exclude

-- The byte of two hexadecimal digits.
unfoldable pub decode_byte : ℕ → ℕ → Option ℕ
decode_byte a b =
    let r = from_chars_hex 8 (a ∷ b ∷ []) in
    if is_success r.ec && is_nil r.rest then some r.value else none

abbrev pub put : ℕ → Option Bytes → Option Bytes
put c none = none
put c (some s) = some (c ∷ s)

abbrev pub put_byte : Option ℕ → Option Bytes → Option Bytes
put_byte none rest = none
put_byte (some c) rest = put c rest

-- The loop of `decode`; nothing where it returns early.
unfoldable pub decode_chars : Bytes → Option Bytes
decode_chars [] = some []
decode_chars (c ∷ []) = some (c ∷ [])
decode_chars (c ∷ a ∷ []) = some (c ∷ a ∷ [])
decode_chars (c ∷ a ∷ b ∷ s) = elim (c == b'%') [
  | true ↦ put_byte (decode_byte a b) (decode_chars s)
  | false ↦ put c (decode_chars (a ∷ b ∷ s))
]

unfoldable pub decode : Bytes → Bytes
decode s = elim (decode_chars s) [ none ↦ [] | some d ↦ d ]

-- The loop of `normalizeEncodedCase`: `pending` more characters belong to an escape.
unfoldable pub normalize_encoded_case : ℕ → Bytes → Bytes
normalize_encoded_case pending [] = []
normalize_encoded_case zero (c ∷ s) =
    c ∷ normalize_encoded_case (if c == b'%' && leb 2 (length s) then 2 else 0) s
normalize_encoded_case (suc pending) (c ∷ s) = to_upper c ∷ normalize_encoded_case pending s
