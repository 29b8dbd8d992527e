-- ===== src/Json/Printer/Decimal.antt =====
-- The branch for decimals in `stringifyImplementation`, which means to drop trailing zeros.
use lsp_framework_noec.Base.{
  ℕ, zero, suc, ◌≡◌, refl, not, ◌||◌, [], ◌∷◌, Bytes, length, ltb, ◌==◌, if◌then◌else◌, arith,
}
use lsp_framework_noec.Json.Floats.{Floats}

-- `std::string::operator[]`, which gives the terminator at the end.
unfoldable pub char_at : Bytes → ℕ → ℕ
char_at [] i = 0
char_at (c ∷ s) zero = c
char_at (c ∷ s) (suc i) = char_at s i

unfoldable pub pop_back : Bytes → Bytes
pop_back [] = []
pop_back (c ∷ []) = []
pop_back (c ∷ d ∷ s) = c ∷ pop_back (d ∷ s)

-- The loop over `i`, which starts at the size.
unfoldable pub trim_zeros : ℕ → Bytes → Bytes
trim_zeros zero s = s
trim_zeros (suc i) s =
    let shorter = trim_zeros i (pop_back s) in
    if not (ltb 2 (suc i))
    then s
    else if not (char_at s (suc i) == b'0') || char_at s i == b'.'
    then s
    else shorter

unfoldable pub decimal_text : (F : Floats) → F.Double → Bytes
decimal_text F d = let s = F.to_string d in trim_zeros (length s) s

char_at-length : (s : Bytes) → char_at s (length s) ≡ 0
unfolding char_at
char_at-length [] = refl
char_at-length (c ∷ s) = char_at-length s

trim_zeros_at_end : (i : ℕ) (s : Bytes) → char_at s i ≡ 0 → trim_zeros i s ≡ s
unfolding trim_zeros
trim_zeros_at_end zero s e = refl
trim_zeros_at_end (suc i) s e = ground arith

-- The loop first looks at the terminator behind the text, stops there and drops nothing: a decimal
-- is printed with all the digits that `std::to_string` gives.
pub decimal_text_untrimmed : (F : Floats) (d : F.Double) → decimal_text F d ≡ F.to_string d
unfolding decimal_text
decimal_text_untrimmed F d = trim_zeros_at_end (length (F.to_string d)) _ (char_at-length _)
