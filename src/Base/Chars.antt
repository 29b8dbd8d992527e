-- ===== src/Base/Chars.antt =====
-- `std::from_chars` and `std::to_string` on integers.
pub mod RoundTrip
use Prim.Native.Nat.{ℕ, zero, suc, ◌+◌, ◌-◌, ◌*◌, ◌/◌, ◌%◌, ◌^◌, ◌≤◌, ◌<◌}
use mathlib.Core.Path.{◌≡◌, refl}
use mathlib.Core.Bool.{Bool, true, false, ◌&&◌, ◌||◌}
use mathlib.Core.List.{List, [], ◌∷◌, ◌++◌}
use mathlib.Core.Option.{Option, none, some}
use native.Mathlib.Omega.{arith}
use lsp_framework_noec.Base.Tests.{ltb, leb, ◌==◌, if◌then◌else◌}
use lsp_framework_noec.Base.Lists.{Bytes, length}
use lsp_framework_noec.Base.Ctype.{is_digit}
use lsp_framework_noec.Base.Ints.{ℤ, pos, negsuc, fits}

pub data Errc : Type 0 where
  success invalid_argument result_out_of_range : Errc

-- The value (meant only with `success`), `ec`, and the text from `ptr` on.
pub record FromChars (A : Type 0) : Type 0 where
  pub value : A
  pub ec : Errc
  pub rest : Bytes

-- The digits at the front, as a number behind `n`, and the text behind them.
unfoldable pub scan_digits : ℕ → Bytes → ℕ × Bytes
unfolding is_digit
scan_digits n [] = (n, [])
scan_digits n (c ∷ s) =
    let more = scan_digits (n * 10 + (c - b'0')) s in if is_digit c then more else (n, c ∷ s)

abbrev pub starts_digit : Bytes → Bool
starts_digit [] = false
starts_digit (c ∷ s) = is_digit c

-- The value of one hexadecimal digit.
unfoldable pub hex_value : ℕ → Option ℕ
hex_value c =
    if leb b'0' c && leb c b'9'
    then some (c - b'0')
    else if leb b'A' c && leb c b'F'
    then some (c - b'A' + 10)
    else if leb b'a' c && leb c b'f'
    then some (c - b'a' + 10)
    else none

unfoldable pub scan_hex : ℕ → Bytes → ℕ × Bytes
scan_hex n [] = (n, [])
scan_hex n (c ∷ s) = elim (hex_value c) [ none ↦ (n, c ∷ s) | some d ↦ scan_hex (n * 16 + d) s ]

abbrev pub starts_hex : Bytes → Bool
starts_hex [] = false
starts_hex (c ∷ s) = elim (hex_value c) [ none ↦ false | some d ↦ true ]

-- An unsigned value of `w` bits in base 16.
unfoldable pub from_chars_hex : ℕ → Bytes → FromChars ℕ
from_chars_hex w s =
    let (n, rest) = scan_hex 0 s in
    if starts_hex s
    then record {
      value = n;
      ec = if ltb n (2 ^ w) then success else result_out_of_range;
      rest = rest;
    }
    else record { value = 0; ec = invalid_argument; rest = s }

-- An unsigned value of `w` bits in base 10.
unfoldable pub from_chars_unsigned : ℕ → Bytes → FromChars ℕ
from_chars_unsigned w s =
    let (n, rest) = scan_digits 0 s in
    if starts_digit s
    then record {
      value = n;
      ec = if ltb n (2 ^ w) then success else result_out_of_range;
      rest = rest;
    }
    else record { value = 0; ec = invalid_argument; rest = s }

abbrev pub negate : ℕ → ℤ
negate zero = pos 0
negate (suc n) = negsuc n

abbrev pub in_range : ℕ → ℤ → Bytes → FromChars ℤ
in_range w z rest = record {
  value = z;
  ec = if fits w z then success else result_out_of_range;
  rest = rest;
}

-- A signed value of `w + 1` bits in base 10.
unfoldable pub from_chars_signed : ℕ → Bytes → FromChars ℤ
from_chars_signed w [] = record { value = pos 0; ec = invalid_argument; rest = [] }
from_chars_signed w (c ∷ s) =
    if c == b'-'
    then (if starts_digit s
        then in_range w (negate (scan_digits 0 s).0) (scan_digits 0 s).1
        else record { value = pos 0; ec = invalid_argument; rest = c ∷ s })
    else if starts_digit (c ∷ s)
    then in_range w (pos (scan_digits 0 (c ∷ s)).0) (scan_digits 0 (c ∷ s)).1
    else record { value = pos 0; ec = invalid_argument; rest = c ∷ s }

-- The decimal digits of `n` in front of `out`, with fuel above the number of digits.
unfoldable pub digits : ℕ → ℕ → Bytes → Bytes
digits zero n out = out
digits (suc f) n out =
    let rest = digits f (n / 10) ((b'0' + n % 10) ∷ out) in
    if ltb n 10 then (b'0' + n) ∷ out else rest

-- `std::to_string` of an unsigned number.
unfoldable pub to_string_nat : ℕ → Bytes
unfolding digits
to_string_nat n = digits (suc n) n []

-- `std::to_string` of an integer.
unfoldable pub to_string_int : ℤ → Bytes
to_string_int (pos n) = to_string_nat n
to_string_int (negsuc n) = b'-' ∷ to_string_nat (suc n)
