-- ===== src/Json/Literal/RoundTrip.antt =====
-- A literal that `toStringLiteral` writes is read back by `fromStringLiteral`.
use lsp_framework_noec.Base.{
  ℕ, ◌+◌, ◌/◌, ◌%◌, ◌<◌, ◌≡◌, refl, ap, ◌∙◌, true, false, [], ◌∷◌, ◌++◌, Bytes, ltb, ◌==◌, arith,
  inl, inr, Bool-cases, from_chars_hex, scan_hex, hex_value, some, ◌*◌, length, leb, ◌^◌, success,
  ◌≢◌,
}
use lsp_framework_noec.Json.Literal.{
  backslashed, hex_lookup, escape_char, escape_chars, to_string_literal, code_point_as_utf8,
  unescape_unicode, unescape_char, unescape_chars, remove_suffix, from_string_literal,
}

pub hex_value-hex_lookup : (n : ℕ) → n < 16 → hex_value (hex_lookup n) ≡ some n
unfolding hex_value hex_lookup
hex_value-hex_lookup n h = ground arith

pub scan_hex_step :
    (n c d : ℕ) (s : Bytes) → hex_value c ≡ some d → scan_hex n (c ∷ s) ≡ scan_hex (n * 16 + d) s
unfolding scan_hex
scan_hex_step n c d s e = rw (e, scan_hex)

scan_hex_two :
    (a b : ℕ)
    → a < 16
    → b < 16
    → scan_hex 0 (b'0' ∷ b'0' ∷ hex_lookup a ∷ hex_lookup b ∷ []) ≡ (a * 16 + b, [])
scan_hex_two a b ha hb =
    let zero_digit : hex_value b'0' ≡ some 0 = unfold hex_value in refl in
    scan_hex_step 0 b'0' 0 _ zero_digit
    ∙ scan_hex_step 0 b'0' 0 _ zero_digit
    ∙ scan_hex_step 0 (hex_lookup a) a _ (hex_value-hex_lookup a ha)
    ∙ scan_hex_step (0 * 16 + a) (hex_lookup b) b _ (hex_value-hex_lookup b hb)
    ∙ unfold scan_hex in ap (λ n. (n, [])) (omega arith)

from_chars_hex_two :
    (a b : ℕ)
    → a < 16
    → b < 16
    → from_chars_hex 32 (b'0' ∷ b'0' ∷ hex_lookup a ∷ hex_lookup b ∷ [])
      ≡ record { value = a * 16 + b; ec = success; rest = [] }
unfolding from_chars_hex
from_chars_hex_two a b ha hb =
    let fits : ltb (a * 16 + b) (2 ^ 32) ≡ true = ground arith in
    rw (scan_hex_two a b ha hb, fits) (unfold hex_value in refl)

unescape_unicode-hex_lookup :
    (c : ℕ) (rest : Bytes)
    → c < 32
    → unescape_unicode (b'0' ∷ b'0' ∷ hex_lookup (c / 16) ∷ hex_lookup (c % 16) ∷ rest)
      ≡ (c ∷ [], 4)
unfolding unescape_unicode
unescape_unicode-hex_lookup c rest h =
    let back : c / 16 * 16 + c % 16 ≡ c = omega arith in
    let long : leb 4 (length (b'0' ∷ b'0' ∷ hex_lookup (c / 16) ∷ hex_lookup (c % 16) ∷ rest))
        ≡ true =
      ground arith in
    let small : ltb c 0x80 ≡ true = ground arith in
    rw (from_chars_hex_two (c / 16) (c % 16) (omega arith) (omega arith), back, long)
      (unfold code_point_as_utf8 in rw small)

-- How a character is written: as a backslash and one character, as a code, or as itself.
pub data Escaping (c : ℕ) : Type 0 where
  named :
      (x : ℕ)
      → escape_char c ≡ backslashed x
      → ((s : Bytes) → unescape_char x s ≡ (c ∷ [], 0))
      → x ≢ b'\n'
      → Escaping c
  coded :
      c < 32
      → escape_char c ≡ b'\\' ∷ b'u' ∷ b'0' ∷ b'0' ∷ hex_lookup (c / 16) ∷ hex_lookup (c % 16) ∷ []
      → Escaping c
  plain : escape_char c ≡ c ∷ [] → c ≢ b'\\' → c ≢ b'"' → c ≢ b'\n' → Escaping c

-- The characters that have a name of their own.
named_char :
    (c k x : ℕ)
    → c ≡ k
    → escape_char k ≡ backslashed x
    → ((s : Bytes) → unescape_char x s ≡ (k ∷ [], 0))
    → x ≢ b'\n'
    → Escaping c
named_char c k x e = rw e (named x)

pub escaping : (c : ℕ) → Escaping c
unfolding escape_char unescape_char
escaping c = elim (Bool-cases (c == 8)) [
  | inl e ↦ named_char c 8 b'b' (ground arith) refl (λ s. refl) (omega arith)
  | inr n8 ↦ elim (Bool-cases (c == 9)) [
    | inl e ↦ named_char c 9 b't' (ground arith) refl (λ s. refl) (omega arith)
    | inr n9 ↦ elim (Bool-cases (c == 10)) [
      | inl e ↦ named_char c 10 b'n' (ground arith) refl (λ s. refl) (omega arith)
      | inr n10 ↦ elim (Bool-cases (c == 12)) [
        | inl e ↦ named_char c 12 b'f' (ground arith) refl (λ s. refl) (omega arith)
        | inr n12 ↦ elim (Bool-cases (c == 13)) [
          | inl e ↦ named_char c 13 b'r' (ground arith) refl (λ s. refl) (omega arith)
          | inr n13 ↦ elim (Bool-cases (c == b'"')) [
            | inl e ↦ named_char c b'"' b'"' (ground arith) refl (λ s. refl) (omega arith)
            | inr n34 ↦ elim (Bool-cases (c == b'\\')) [
              | inl e ↦ named_char c b'\\' b'\\' (ground arith) refl (λ s. refl) (omega arith)
              | inr n92 ↦ elim (Bool-cases (ltb c 0x20)) [
                | inl e ↦ coded (ground arith) (rw (n8, n9, n10, n12, n13, n34, n92, e))
                | inr e ↦
                    plain (rw (n8, n9, n10, n12, n13, n34, n92, e)) (ground arith) (ground arith)
                      (ground arith)
              ]
            ]
          ]
        ]
      ]
    ]
  ]
]

unescape_chars-Escaping :
    (c : ℕ) (rest : Bytes)
    → Escaping c
    → unescape_chars 0 (escape_char c ++ rest) ≡ c ∷ unescape_chars 0 rest
unfolding unescape_chars
unescape_chars-Escaping c rest (named x e u n) = rw e (rw (u rest))
unescape_chars-Escaping c rest (coded h e) =
    let code : unescape_char b'u' (b'0' ∷ b'0' ∷ hex_lookup (c / 16) ∷ hex_lookup (c % 16) ∷ rest)
        ≡ (c ∷ [], 4) =
      unfold unescape_char in unescape_unicode-hex_lookup c rest h in
    rw e (rw code)
unescape_chars-Escaping c [] (plain e n92 n34 n10) = rw e
unescape_chars-Escaping c (d ∷ rest) (plain e n92 n34 n10) =
    let no_escape : (c == b'\\') ≡ false = ground arith in rw (e, no_escape)

unescape_chars-escape_chars : (s : Bytes) → unescape_chars 0 (escape_chars s) ≡ s
unescape_chars-escape_chars [] = unfold unescape_chars in refl
unescape_chars-escape_chars (c ∷ s) =
    unescape_chars-Escaping c (escape_chars s) (escaping c)
    ∙ ap (◌∷◌ c) (unescape_chars-escape_chars s)

remove_suffix_quote : (s : Bytes) → remove_suffix (s ++ b'"' ∷ []) ≡ s
unfolding remove_suffix
remove_suffix_quote [] = refl
remove_suffix_quote (c ∷ []) = refl
remove_suffix_quote (c ∷ d ∷ s) = ap (◌∷◌ c) (remove_suffix_quote (d ∷ s))

-- `fromStringLiteral(toStringLiteral(s))` is `s`, for every byte string.
pub from_string_literal-to_string_literal :
    (s : Bytes) → from_string_literal (to_string_literal s) ≡ s
unfolding from_string_literal to_string_literal
from_string_literal-to_string_literal s =
    ap (unescape_chars 0) (remove_suffix_quote (escape_chars s)) ∙ unescape_chars-escape_chars s
