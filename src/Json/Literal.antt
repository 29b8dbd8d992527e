-- ===== src/Json/Literal.antt =====
-- String literals: `toStringLiteral`, `fromStringLiteral` and `appendCodePointAsUtf8` of
-- lsp/json/json.cpp.
pub mod RoundTrip
use lsp_framework_noec.Base.{
  ℕ, zero, suc, ◌+◌, ◌-◌, ◌/◌, ◌%◌, Bool, true, false, ◌&&◌, [], ◌∷◌, ◌++◌, Bytes, length, take,
  ltb, leb, ◌==◌, if◌then◌else◌, from_chars_hex, FromChars, Errc, success,
}

-- `hexLookup[n]` for a digit `n`.
unfoldable pub hex_lookup : ℕ → ℕ
hex_lookup n = if ltb n 10 then b'0' + n else b'A' + (n - 10)

abbrev pub backslashed : ℕ → Bytes
backslashed c = b'\\' ∷ c ∷ []

-- What one round of the loop appends.
unfoldable pub escape_char : ℕ → Bytes
escape_char c =
    if c == 8
    then backslashed b'b'
    else if c == 9
    then backslashed b't'
    else if c == 10
    then backslashed b'n'
    else if c == 12
    then backslashed b'f'
    else if c == 13
    then backslashed b'r'
    else if c == b'"'
    then backslashed b'"'
    else if c == b'\\'
    then backslashed b'\\'
    else if ltb c 0x20
    then b'\\' ∷ b'u' ∷ b'0' ∷ b'0' ∷ hex_lookup (c / 16) ∷ hex_lookup (c % 16) ∷ []
    else c ∷ []

abbrev pub escape_chars : Bytes → Bytes
escape_chars [] = []
escape_chars (c ∷ s) = escape_char c ++ escape_chars s

unfoldable pub to_string_literal : Bytes → Bytes
to_string_literal s = b'"' ∷ (escape_chars s ++ b'"' ∷ [])

-- The bit fields do not overlap, so `|` is a sum.
unfoldable pub code_point_as_utf8 : ℕ → Bytes
code_point_as_utf8 cp =
    if ltb cp 0x80
    then cp ∷ []
    else if ltb cp 0x800
    then (0xC0 + cp / 64 % 32) ∷ (0x80 + cp % 64) ∷ []
    else if ltb cp 0x10000
    then (0xE0 + cp / 4096 % 16) ∷ (0x80 + cp / 64 % 64) ∷ (0x80 + cp % 64) ∷ []
    else if ltb cp 0x200000
    then (0xF0 + cp / 262144 % 8)
      ∷ (0x80 + cp / 4096 % 64)
      ∷ (0x80 + cp / 64 % 64)
      ∷ (0x80 + cp % 64)
      ∷ []
    else b'?' ∷ []

abbrev pub is_success : Errc → Bool
is_success success = true
is_success _ = false

abbrev pub is_nil : Bytes → Bool
is_nil [] = true
is_nil (c ∷ s) = false

-- `case 'u'`, with the text behind the `u`: what is appended, and how far `i` moves on.
unfoldable pub unescape_unicode : Bytes → Bytes × ℕ
unescape_unicode s =
    let r = from_chars_hex 32 (take 4 s) in
    let len = 4 - length r.rest in
    if leb 4 (length s)
    then (if is_success r.ec && is_nil r.rest
        then (code_point_as_utf8 r.value, 4)
        else (b'\\' ∷ b'u' ∷ take len s, len))
    else (b'\\' ∷ b'u' ∷ s, length s)

-- The `switch` on the character `c` behind a backslash.
unfoldable pub unescape_char : ℕ → Bytes → Bytes × ℕ
unescape_char c s =
    if c == b'0'
    then (0 ∷ [], 0)
    else if c == b'a'
    then (7 ∷ [], 0)
    else if c == b'b'
    then (8 ∷ [], 0)
    else if c == b't'
    then (9 ∷ [], 0)
    else if c == b'n'
    then (10 ∷ [], 0)
    else if c == b'v'
    then (11 ∷ [], 0)
    else if c == b'f'
    then (12 ∷ [], 0)
    else if c == b'r'
    then (13 ∷ [], 0)
    else if c == b'u'
    then unescape_unicode s
    else (c ∷ [], 0)

-- The loop over `i`; the first argument counts the characters that `i` has still to pass.
unfoldable pub unescape_chars : ℕ → Bytes → Bytes
unescape_chars skip [] = []
unescape_chars (suc skip) (c ∷ s) = unescape_chars skip s
unescape_chars zero (c ∷ []) = c ∷ []
unescape_chars zero (c ∷ d ∷ s) =
    let plain = c ∷ unescape_chars zero (d ∷ s) in
    let escaped = (unescape_char d s).0 ++ unescape_chars (unescape_char d s).1 s in
    if c == b'\\' then escaped else plain

abbrev remove_prefix : Bytes → Bytes
remove_prefix [] = []
remove_prefix (c ∷ s) = if c == b'"' then s else c ∷ s

-- `remove_suffix(1)` if the last character is a quote.
unfoldable pub remove_suffix : Bytes → Bytes
remove_suffix [] = []
remove_suffix (c ∷ []) = if c == b'"' then [] else c ∷ []
remove_suffix (c ∷ d ∷ s) = c ∷ remove_suffix (d ∷ s)

unfoldable pub from_string_literal : Bytes → Bytes
from_string_literal s = unescape_chars 0 (remove_suffix (remove_prefix s))
