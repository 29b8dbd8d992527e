-- ===== src/Json/Scalar/RoundTrip.antt =====
-- `parseSimpleValue` reads back what `stringify` writes for a value that holds no other.
use lsp_framework_noec.Base.{
  ℕ, ◌≡◌, refl, Bool, true, false, ◌||◌, [], ◌∷◌, ◌++◌, append-nil, suc, some, Bytes, codes, length,
  All, ◌==◌, ltb, bytes_eq, if◌then◌else◌, is_alnum, is_alpha, is_digit, ℤ, pos, negsuc, Fits, fits,
  ok, arith, to_string_int,
}
use lsp_framework_noec.Base.Chars.RoundTrip.{
  IsDigits, to_string_nat-IsDigits, to_string_nat-cons, from_chars_signed-to_string,
}
use lsp_framework_noec.Json.Value.{Value, null, boolean, integer, decimal, string}
use lsp_framework_noec.Json.Floats.{Floats}
use lsp_framework_noec.Json.Literal.{to_string_literal}
use lsp_framework_noec.Json.Cursor.{front}
use lsp_framework_noec.Json.Scalar.{
  is_decimal_mark, is_number_char, span, any_decimal_mark, parse_decimal, parse_integer,
  parse_number, parse_identifier, parse_simple_value,
}
use lsp_framework_noec.Json.Scalar.Strings.{parse_string-to_string_literal}

-- The text does not begin with a character of the kind.
abbrev pub Stops : (ℕ → Bool) → Bytes → Type 0
Stops test [] = Unit {0}
Stops test (c ∷ s) = test c ≡ false

pub span-append :
    (test : ℕ → Bool) (xs rest : Bytes)
    → All (λ c. test c ≡ true) xs
    → Stops test rest
    → span test (xs ++ rest) ≡ (xs, rest)
unfolding span
span-append test [] [] h stop = refl
span-append test [] (c ∷ rest) h stop = rw stop
span-append test (x ∷ xs) rest (hx, hs) stop = rw (hx, span-append test xs rest hs stop)

module _ (F : Floats) where
  open F use {Double, stod, to_string}

  pub parse_string_value :
      (size : ℕ) (s rest : Bytes)
      → parse_simple_value F size (to_string_literal s ++ rest) ≡ ok (string s, rest)
  unfolding parse_simple_value
  parse_string_value size s rest =
      rw (parse_string-to_string_literal size s rest) (unfold to_string_literal in refl)

  module _ (size : ℕ) (rest : Bytes) (stop : Stops is_alnum rest) where
    pub parse_true : parse_simple_value F size (codes "true" ++ rest) ≡ ok (boolean true, rest)
    unfolding parse_simple_value parse_identifier is_digit is_alpha is_alnum
    parse_true =
        rw (span-append is_alnum (codes "true") rest (refl, (refl, (refl, (refl, tt)))) stop)
          (unfold bytes_eq in refl)

    pub parse_false : parse_simple_value F size (codes "false" ++ rest) ≡ ok (boolean false, rest)
    unfolding parse_simple_value parse_identifier is_digit is_alpha is_alnum
    parse_false =
        rw
          (span-append is_alnum (codes "false") rest (refl, (refl, (refl, (refl, (refl, tt)))))
            stop)
          (unfold bytes_eq in refl)

    pub parse_null : parse_simple_value F size (codes "null" ++ rest) ≡ ok (null, rest)
    unfolding parse_simple_value parse_identifier is_digit is_alpha is_alnum
    parse_null =
        rw (span-append is_alnum (codes "null") rest (refl, (refl, (refl, (refl, tt)))) stop)
          (unfold bytes_eq in refl)

-- A text that `parseSimpleValue` takes for a number, all of it.
pub record IsNumberText (text : Bytes) : Type 0 where
  pub starts : (is_digit (front text) || front text == b'-') ≡ true
  pub number_chars : All (λ c. is_number_char c ≡ true) text

digit-is_number_char : (c : ℕ) → is_digit c ≡ true → is_number_char c ≡ true
unfolding is_number_char is_alnum
digit-is_number_char c h = ground arith

digit-is_decimal_mark : (c : ℕ) → is_digit c ≡ true → is_decimal_mark c ≡ false
unfolding is_decimal_mark is_digit
digit-is_decimal_mark c h = ground arith

digits-number_chars : (s : Bytes) → IsDigits s → All (λ c. is_number_char c ≡ true) s
digits-number_chars [] h = tt
digits-number_chars (c ∷ s) (hc, hs) = (digit-is_number_char c hc, digits-number_chars s hs)

digits-any_decimal_mark : (s : Bytes) → IsDigits s → any_decimal_mark s ≡ false
unfolding any_decimal_mark
digits-any_decimal_mark [] h = refl
digits-any_decimal_mark (c ∷ s) (hc, hs) =
    rw (digit-is_decimal_mark c hc, digits-any_decimal_mark s hs)

pub to_string_int-IsNumberText : (z : ℤ) → IsNumberText (to_string_int z)
unfolding to_string_int
to_string_int-IsNumberText (pos n) =
    let (c, s, e, d) = to_string_nat-cons n in
    record { starts = rw (e, d); number_chars = digits-number_chars _ (to_string_nat-IsDigits n) }
to_string_int-IsNumberText (negsuc n) = record {
  starts = unfold is_digit in refl;
  number_chars = (
    unfold is_number_char in ground arith,
    digits-number_chars _ (to_string_nat-IsDigits (suc n)),
  );
}

to_string_int-any_decimal_mark : (z : ℤ) → any_decimal_mark (to_string_int z) ≡ false
unfolding to_string_int
to_string_int-any_decimal_mark (pos n) = digits-any_decimal_mark _ (to_string_nat-IsDigits n)
to_string_int-any_decimal_mark (negsuc n) =
    unfold any_decimal_mark is_decimal_mark in
    digits-any_decimal_mark _ (to_string_nat-IsDigits (suc n))

pub Fits-fits : (w : ℕ) (z : ℤ) → Fits w z → fits w z ≡ true
Fits-fits w (pos n) h = ground arith
Fits-fits w (negsuc n) h = ground arith

Fits-wider : (z : ℤ) → Fits 31 z → Fits 63 z
Fits-wider (pos n) h = omega arith
Fits-wider (negsuc n) h = omega arith

module _ (F : Floats) where
  open F use {Double, stod, to_string}

  -- A decimal whose print is a number with a decimal mark that `std::stod` reads back.
  pub record Survives (d : Double) : Type 0 where
    pub is_number : IsNumberText (to_string d)
    pub has_mark : any_decimal_mark (to_string d) ≡ true
    pub reads_back : stod (to_string d) ≡ some (d, length (to_string d))

  parse_number-append :
      (size : ℕ) (text rest : Bytes) (v : Value Double)
      → IsNumberText text
      → Stops is_number_char rest
      → (if any_decimal_mark text
          then parse_decimal F size text (text ++ rest)
          else parse_integer F size text (text ++ rest))
        ≡ ok v
      → parse_simple_value F size (text ++ rest) ≡ ok (v, rest)
  unfolding parse_simple_value parse_number
  parse_number-append size [] rest v n stop h = unfold is_digit in cc n.starts
  parse_number-append size (c ∷ s) rest v n stop h =
      let no_quote : (c == b'"') ≡ false = unfold is_digit in ground arith in
      rw (no_quote, n.starts)
        (rw (span-append is_number_char (c ∷ s) rest n.number_chars stop) (rw h))

  pub parse_integer_value :
      (size : ℕ) (z : ℤ) (rest : Bytes)
      → Fits 31 z
      → Stops is_number_char rest
      → parse_simple_value F size (to_string_int z ++ rest) ≡ ok (integer z, rest)
  parse_integer_value size z rest fit stop =
      let read = from_chars_signed-to_string 63 z [] (Fits-wider z fit) refl in
      let read' = rw append-nil at read in
      parse_number-append size (to_string_int z) rest (integer z) (to_string_int-IsNumberText z)
        stop
        (rw (to_string_int-any_decimal_mark z)
          (unfold parse_integer in rw (read', Fits-fits 31 z fit)))

  pub parse_decimal_value :
      (size : ℕ) (d : Double) (rest : Bytes)
      → Survives d
      → Stops is_number_char rest
      → parse_simple_value F size (to_string d ++ rest) ≡ ok (decimal d, rest)
  parse_decimal_value size d rest k stop =
      let whole : ltb (length (to_string d)) (length (to_string d)) ≡ false = ground arith in
      parse_number-append size (to_string d) rest (decimal d) k.is_number stop
        (rw k.has_mark (unfold parse_decimal in rw (k.reads_back, parse_decimal) (rw whole)))
