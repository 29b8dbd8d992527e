-- ===== src/Json/Parser/Ends.antt =====
-- The scanning functions end, and what they return is behind at least one character.
use lsp_framework_noec.Base.{
  ℕ, ◌≤◌, ◌<◌, ◌≡◌, ◌≢◌, refl, Bool, true, false, not, ◌&&◌, ◌||◌, [], ◌∷◌, Bytes, length, ◌==◌,
  if◌then◌else◌, arith, Outcome, ok, unexpected, terminate, out_of_fuel, ◌>>=◌, is_alnum, is_alpha,
  is_digit, inl, inr, Option-cases, ltb, fits, from_chars_signed, codes, bytes_eq,
}
use lsp_framework_noec.Json.Floats.{Floats}
use lsp_framework_noec.Json.Cursor.{skip_whitespace}
use lsp_framework_noec.Json.Scalar.{
  scan_string, parse_string, is_number_char, span, parse_decimal, parse_integer, parse_number,
  parse_identifier, parse_simple_value, any_decimal_mark,
}
use lsp_framework_noec.Json.Literal.{is_success, is_nil}

-- The call comes to an end, and a value that it returns satisfies `P`.
abbrev pub Ends : {E A : Type 0} → (A → Type 0) → Outcome E A → Type 0
Ends P (ok a) = P a
Ends P (unexpected e) = Unit
Ends P terminate = Unit
Ends P out_of_fuel = ⊥

module _ {E A B : Type 0} (P : A → Type 0) (Q : B → Type 0) where
  pub Ends-bind :
      (m : Outcome E A) (f : A → Outcome E B)
      → Ends P m
      → ((a : A) → P a → Ends Q (f a))
      → Ends Q (m >>= f)
  Ends-bind (ok a) f h k = k a h
  Ends-bind (unexpected e) f h k = tt
  Ends-bind terminate f h k = tt
  Ends-bind out_of_fuel f h k = h

pub Ends-if :
    {E A : Type 0} (P : A → Type 0) (b : Bool) (m n : Outcome E A)
    → (b ≡ true → Ends P m)
    → (b ≡ false → Ends P n)
    → Ends P (if b then m else n)
Ends-if P true m n h k = h refl
Ends-if P false m n h k = k refl

pub Ends-weaken :
    {E A : Type 0} (P Q : A → Type 0) (m : Outcome E A)
    → Ends P m
    → ((a : A) → P a → Q a)
    → Ends Q m
Ends-weaken P Q (ok a) h k = k a h
Ends-weaken P Q (unexpected e) h k = tt
Ends-weaken P Q terminate h k = tt
Ends-weaken P Q out_of_fuel h k = h

pub Ends-ne : {E A : Type 0} (P : A → Type 0) (m : Outcome E A) → Ends P m → m ≢ out_of_fuel
Ends-ne P (ok a) h = cc
Ends-ne P (unexpected e) h = cc
Ends-ne P terminate h = cc
Ends-ne P out_of_fuel h = absurd h

pub length-skip_whitespace : (s : Bytes) → length (skip_whitespace s) ≤ length s
unfolding skip_whitespace
length-skip_whitespace [] = omega arith
length-skip_whitespace (c ∷ s) = ground (arith, length-skip_whitespace s)

-- The text behind the result is shorter than `s`.
abbrev pub Shorter : {A : Type 0} → Bytes → A × Bytes → Type 0
Shorter s r = length r.1 < length s

scan_string-Ends : (size : ℕ) (e : Bool) (s : Bytes) → Ends (Shorter s) (scan_string size e s)
unfolding scan_string
scan_string-Ends size e [] = tt
scan_string-Ends size e (c ∷ s) =
    Ends-if (Shorter (c ∷ s)) (c == b'\n') _ _ (λ _. tt)
      (λ _.
        Ends-if (Shorter (c ∷ s)) (not e && c == b'"') _ _ (λ _. omega arith)
          (λ _.
            Ends-bind (Shorter s) (Shorter (c ∷ s)) (scan_string size (not e && c == b'\\') s)
              (λ r. ok (c ∷ r.0, r.1)) (scan_string-Ends size (not e && c == b'\\') s)
              (λ r h. omega arith)))

pub parse_string-Ends : (size : ℕ) (s : Bytes) → Ends (Shorter s) (parse_string size s)
unfolding parse_string
parse_string-Ends size [] = tt
parse_string-Ends size (c ∷ s) =
    Ends-if (Shorter (c ∷ s)) (c == b'"') _ _
      (λ _.
        Ends-bind (Shorter s) (Shorter (c ∷ s)) (scan_string size false s) _
          (scan_string-Ends size false s) (λ r h. omega arith))
      (λ _. tt)

length-span : (test : ℕ → Bool) (s : Bytes) → length (span test s).1 ≤ length s
unfolding span
length-span test [] = omega arith
length-span test (c ∷ s) = ground (arith, length-span test s)

length-span_lt :
    (test : ℕ → Bool) (c : ℕ) (s : Bytes)
    → test c ≡ true
    → length (span test (c ∷ s)).1 < length (c ∷ s)
unfolding span
length-span_lt test c s h = rw h (omega (arith, length-span test s))

module _ (F : Floats) where
  open F use {Double}

  parse_decimal-Ends :
      (size : ℕ) (text at : Bytes) → Ends (λ v. Unit {0}) (parse_decimal F size text at)
  unfolding parse_decimal
  parse_decimal-Ends size text at = elim (Option-cases (F.stod text)) [
    | inl e ↦ rw (e, parse_decimal) tt
    | inr (r, e) ↦
        rw (e, parse_decimal) (Ends-if (λ v. Unit) (ltb r.1 (length text)) _ _ (λ _. tt) (λ _. tt))
  ]

  parse_integer-Ends :
      (size : ℕ) (text at : Bytes) → Ends (λ v. Unit {0}) (parse_integer F size text at)
  unfolding parse_integer
  parse_integer-Ends size text at =
      let r = from_chars_signed 63 text in
      Ends-if (λ v. Unit) (not (is_success r.ec) || not (is_nil r.rest)) _ _ (λ _. tt)
        (λ _. Ends-if (λ v. Unit) (fits 31 r.value) _ _ (λ _. tt) (λ _. tt))

  parse_number-Ends :
      (size c : ℕ) (s : Bytes)
      → is_number_char c ≡ true
      → Ends (Shorter (c ∷ s)) (parse_number F size (c ∷ s))
  unfolding parse_number
  parse_number-Ends size c s h =
      Ends-bind (λ v. Unit) (Shorter (c ∷ s)) _ _
        (Ends-if (λ v. Unit) (any_decimal_mark (span is_number_char (c ∷ s)).0) _ _
          (λ _. parse_decimal-Ends size _ (c ∷ s)) (λ _. parse_integer-Ends size _ (c ∷ s)))
        (λ v _. length-span_lt is_number_char c s h)

  parse_identifier-Ends :
      (size c : ℕ) (s : Bytes)
      → is_alnum c ≡ true
      → Ends (Shorter (c ∷ s)) (parse_identifier F size (c ∷ s))
  unfolding parse_identifier
  parse_identifier-Ends size c s h =
      let less = length-span_lt is_alnum c s h in
      Ends-if (Shorter (c ∷ s)) (bytes_eq (span is_alnum (c ∷ s)).0 (codes "true")) _ _ (λ _. less)
        (λ _.
          Ends-if (Shorter (c ∷ s)) (bytes_eq (span is_alnum (c ∷ s)).0 (codes "false")) _ _
            (λ _. less)
            (λ _.
              Ends-if (Shorter (c ∷ s)) (bytes_eq (span is_alnum (c ∷ s)).0 (codes "null")) _ _
                (λ _. less) (λ _. tt)))

  pub parse_simple_value-Ends :
      (size c : ℕ) (s : Bytes) → Ends (Shorter (c ∷ s)) (parse_simple_value F size (c ∷ s))
  unfolding parse_simple_value
  parse_simple_value-Ends size c s =
      Ends-if (Shorter (c ∷ s)) (c == b'"') _ _
        (λ _.
          Ends-bind (Shorter (c ∷ s)) (Shorter (c ∷ s)) (parse_string size (c ∷ s)) _
            (parse_string-Ends size (c ∷ s)) (λ r h. h))
        (λ _.
          Ends-if (Shorter (c ∷ s)) (is_digit c || c == b'-') _ _
            (λ h. parse_number-Ends size c s (unfold is_number_char is_alnum in ground arith))
            (λ _.
              Ends-if (Shorter (c ∷ s)) (is_alpha c) _ _
                (λ h. parse_identifier-Ends size c s (unfold is_alnum in ground arith)) (λ _. tt)))
