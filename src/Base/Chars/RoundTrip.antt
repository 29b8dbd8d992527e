-- ===== src/Base/Chars/RoundTrip.antt =====
-- `std::from_chars` reads back what `std::to_string` wrote.
use Prim.Native.Nat.{ℕ, zero, suc, ◌+◌, ◌-◌, ◌*◌, ◌/◌, ◌%◌, ◌^◌, ◌<◌}
use mathlib.Core.Path.{◌≡◌, refl, ap, sym, ◌∙◌}
use mathlib.Core.Logic.{inl, inr}
use mathlib.Core.Bool.{true, false}
use mathlib.Core.List.{[], ◌∷◌, ◌++◌, append_assoc}
use native.Mathlib.Omega.{arith}
use lsp_framework_noec.Base.Tests.{ltb, ◌==◌, Bool-cases}
use lsp_framework_noec.Base.Lists.{Bytes, All}
use lsp_framework_noec.Base.Ctype.{is_digit}
use lsp_framework_noec.Base.Ints.{ℤ, pos, negsuc, Fits}
use lsp_framework_noec.Base.Chars.{
  success, scan_digits, starts_digit, from_chars_unsigned, from_chars_signed, digits, to_string_nat,
  to_string_int,
}

abbrev pub IsDigits : Bytes → Type 0
IsDigits = All (λ c. is_digit c ≡ true)

is_digit_of : (n : ℕ) → n < 10 → is_digit (b'0' + n) ≡ true
unfolding is_digit
is_digit_of n h = ground arith

scan_digits_step :
    (n d : ℕ) (s : Bytes) → d < 10 → scan_digits n ((b'0' + d) ∷ s) ≡ scan_digits (n * 10 + d) s
unfolding scan_digits
scan_digits_step n d s h = let e : b'0' + d - b'0' ≡ d = omega arith in rw (is_digit_of d h, e)

pub scan_digits_stop : (n : ℕ) (s : Bytes) → starts_digit s ≡ false → scan_digits n s ≡ (n, s)
unfolding scan_digits
scan_digits_stop n [] h = refl
scan_digits_stop n (c ∷ s) h = rw h

-- The digits that stand before `out`.
digits-append : (f n : ℕ) (out : Bytes) → digits f n out ≡ digits f n [] ++ out
unfolding digits
digits-append zero n out = refl
digits-append (suc f) n out = ground (
  arith,
  digits-append f (n / 10) ((b'0' + n % 10) ∷ out),
  digits-append f (n / 10) ((b'0' + n % 10) ∷ []),
  append_assoc (digits f (n / 10) []) ((b'0' + n % 10) ∷ []) out,
)

scan_digits-digits :
    (f n : ℕ) (out : Bytes) → n < f → scan_digits 0 (digits f n out) ≡ scan_digits n out
unfolding digits
scan_digits-digits zero n out h = elim h [ ]
scan_digits-digits (suc f) n out h = elim (Bool-cases (ltb n 10)) [
  | inl e ↦
      rw e (scan_digits_step 0 n out (ground arith) ∙ ap (λ k. scan_digits k out) (omega arith))
  | inr e ↦ rw e (
      scan_digits-digits f (n / 10) ((b'0' + n % 10) ∷ out) (ground arith)
      ∙ scan_digits_step (n / 10) (n % 10) out (omega arith)
      ∙ ap (λ k. scan_digits k out) (omega arith))
]

digits-IsDigits : (f n : ℕ) (out : Bytes) → IsDigits out → IsDigits (digits f n out)
unfolding digits
digits-IsDigits zero n out h = h
digits-IsDigits (suc f) n out h = elim (Bool-cases (ltb n 10)) [
  | inl e ↦ rw e (is_digit_of n (ground arith), h)
  | inr e ↦
      rw e
        (digits-IsDigits f (n / 10) ((b'0' + n % 10) ∷ out) (is_digit_of (n % 10) (omega arith), h))
]

starts-IsDigits : (f n : ℕ) (out : Bytes) → n < f → starts_digit (digits f n out) ≡ true
unfolding digits
starts-IsDigits zero n out h = elim h [ ]
starts-IsDigits (suc f) n out h = elim (Bool-cases (ltb n 10)) [
  | inl e ↦ rw e (is_digit_of n (ground arith))
  | inr e ↦ rw e (starts-IsDigits f (n / 10) ((b'0' + n % 10) ∷ out) (ground arith))
]

pub to_string_nat-IsDigits : (n : ℕ) → IsDigits (to_string_nat n)
unfolding to_string_nat
to_string_nat-IsDigits n = digits-IsDigits (suc n) n [] tt

-- A print is a digit and more digits.
pub to_string_nat-cons :
    (n : ℕ) → (c : ℕ) × (s : Bytes) × (to_string_nat n ≡ c ∷ s) × (is_digit c ≡ true)
to_string_nat-cons n = go (to_string_nat n) refl
  where
    starts : starts_digit (to_string_nat n) ≡ true
    starts = unfold to_string_nat in starts-IsDigits (suc n) n [] (omega arith)

    go :
        (t : Bytes)
        → to_string_nat n ≡ t
        → (c : ℕ) × (s : Bytes) × (to_string_nat n ≡ c ∷ s) × (is_digit c ≡ true)
    go [] e = cc (sym (ap starts_digit e) ∙ starts)
    go (c ∷ s) e = (c, s, e, sym (ap starts_digit e) ∙ starts)

starts-to_string_nat : (n : ℕ) (rest : Bytes) → starts_digit (to_string_nat n ++ rest) ≡ true
starts-to_string_nat n rest = let (c, s, e, d) = to_string_nat-cons n in rw e d

pub scan_digits-to_string_nat :
    (n : ℕ) (rest : Bytes)
    → starts_digit rest ≡ false
    → scan_digits 0 (to_string_nat n ++ rest) ≡ (n, rest)
unfolding to_string_nat
scan_digits-to_string_nat n rest h =
    ap (scan_digits 0) (sym (digits-append (suc n) n rest))
    ∙ scan_digits-digits (suc n) n rest (omega arith)
    ∙ scan_digits_stop n rest h

-- An unsigned number of `w` bits is read back, whatever text follows that is no digit.
pub from_chars_unsigned-to_string :
    (w n : ℕ) (rest : Bytes)
    → n < 2 ^ w
    → starts_digit rest ≡ false
    → from_chars_unsigned w (to_string_nat n ++ rest)
      ≡ record { value = n; ec = success; rest = rest }
unfolding from_chars_unsigned
from_chars_unsigned-to_string w n rest fit stop =
    let in_bits : ltb n (2 ^ w) ≡ true = ground arith in
    rw (starts-to_string_nat n rest, scan_digits-to_string_nat n rest stop, in_bits)

signed_pos :
    (w c n : ℕ) (s rest : Bytes)
    → is_digit c ≡ true
    → scan_digits 0 (c ∷ s) ≡ (n, rest)
    → n < 2 ^ w
    → from_chars_signed w (c ∷ s) ≡ record { value = pos n; ec = success; rest = rest }
unfolding from_chars_signed
signed_pos w c n s rest d e fit =
    let no_sign : (c == b'-') ≡ false = unfold is_digit in ground arith in
    let in_bits : ltb n (2 ^ w) ≡ true = ground arith in rw (no_sign, d, e, in_bits)

-- So is a signed number of `w + 1` bits.
pub from_chars_signed-to_string :
    (w : ℕ) (z : ℤ) (rest : Bytes)
    → Fits w z
    → starts_digit rest ≡ false
    → from_chars_signed w (to_string_int z ++ rest)
      ≡ record { value = z; ec = success; rest = rest }
unfolding to_string_int
from_chars_signed-to_string w (pos n) rest fit stop =
    let (c, s, e, d) = to_string_nat-cons n in
    let scanned = scan_digits-to_string_nat n rest stop in
    rw e (signed_pos w c n (s ++ rest) rest d (rw e at scanned) fit)
from_chars_signed-to_string w (negsuc n) rest fit stop =
    let in_bits : ltb n (2 ^ w) ≡ true = ground arith in
    unfold from_chars_signed in
    rw (starts-to_string_nat (suc n) rest, scan_digits-to_string_nat (suc n) rest stop, in_bits)
