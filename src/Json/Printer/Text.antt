-- ===== src/Json/Printer/Text.antt =====
-- The shape of the text that `stringify` writes.
use Prim.Native.Nat.{min}
use lsp_framework_noec.Base.{
  is_alnum, ℕ, zero, suc, ◌+◌, ◌≡◌, ◌≢◌, refl, Bool, true, false, ◌||◌, [], ◌∷◌, ◌++◌, append_assoc,
  Bytes, All, replicate, ◌==◌, arith, is_space, is_digit, Fits,
}
use lsp_framework_noec.Json.Value.{
  Value, Items, Fields, null, boolean, integer, decimal, string, nil, cons, end, field,
}
use lsp_framework_noec.Json.Floats.{Floats}
use lsp_framework_noec.Json.Object.{contains}
use lsp_framework_noec.Json.Literal.{to_string_literal}
use lsp_framework_noec.Json.Cursor.{skip_whitespace}
use lsp_framework_noec.Json.Scalar.{is_number_char}
use lsp_framework_noec.Json.Scalar.RoundTrip.{
  Stops, IsNumberText, to_string_int-IsNumberText, Survives,
}
use lsp_framework_noec.Json.Printer.{
  indent, key_sep, separator, new_line, emit, emit_array, emit_object, emit_items, emit_fields,
}
use lsp_framework_noec.Json.Printer.Decimal.{decimal_text_untrimmed}

abbrev pub IsSpaces : Bytes → Type 0
IsSpaces = All (λ c. is_space c ≡ true)

pub skip_whitespace_spaces :
    (ws s : Bytes) → IsSpaces ws → skip_whitespace (ws ++ s) ≡ skip_whitespace s
unfolding skip_whitespace
skip_whitespace_spaces [] s h = refl
skip_whitespace_spaces (c ∷ ws) s (hc, hs) = rw hc (skip_whitespace_spaces ws s hs)

pub skip_whitespace_stop :
    (c : ℕ) (s : Bytes) → is_space c ≡ false → skip_whitespace (c ∷ s) ≡ c ∷ s
unfolding skip_whitespace
skip_whitespace_stop c s h = rw h

tabs-IsSpaces : (n : ℕ) → IsSpaces (replicate n 9)
unfolding is_space
tabs-IsSpaces zero = tt
tabs-IsSpaces (suc n) = (refl, tabs-IsSpaces n)

indent-IsSpaces : (format : Bool) (level : ℕ) → IsSpaces (indent format level)
unfolding indent
indent-IsSpaces true level = tabs-IsSpaces (min level 32)
indent-IsSpaces false level = tt

pub new_line-IsSpaces : (format : Bool) (level : ℕ) → IsSpaces (new_line format level)
unfolding new_line is_space
new_line-IsSpaces true level = (refl, indent-IsSpaces true level)
new_line-IsSpaces false level = indent-IsSpaces false level

-- A comma, then white space.
pub separator-cons :
    (format : Bool) (level : ℕ) (s : Bytes)
    → separator format level ++ s ≡ b',' ∷ (new_line format level ++ s)
unfolding separator new_line
separator-cons format level s = refl

pub new_line-Stops :
    (format : Bool) (level c : ℕ) (s : Bytes)
    → is_number_char c ≡ false
    → Stops is_number_char (new_line format level ++ c ∷ s)
unfolding new_line indent is_alnum
new_line-Stops true level c s h = unfold is_number_char in refl
new_line-Stops false level c s h = h

-- What `stringify` prints so that the parser reads it back: integers of 32 bits, decimals whose
-- print names them, objects with no key twice.
module _ (F : Floats) where
  open F use {Double}

  abbrev mutual
    pub Prints : Value Double → Type 0
    Prints null = Unit
    Prints (boolean b) = Unit
    Prints (integer n) = Fits 31 n
    Prints (decimal d) = Survives F d
    Prints (string s) = Unit
    Prints (Value.array xs) = PrintsItems xs
    Prints (Value.object fs) = PrintsFields fs

    pub PrintsItems : Items Double → Type 0
    PrintsItems nil = Unit
    PrintsItems (cons x xs) = Prints x × PrintsItems xs

    pub PrintsFields : Fields Double → Type 0
    PrintsFields end = Unit
    PrintsFields (field k v fs) = (contains k fs ≡ false) × Prints v × PrintsFields fs

-- A character at which a value may begin.
pub record Opens (c : ℕ) : Type 0 where
  pub no_space : is_space c ≡ false
  pub no_bracket : c ≢ b']'
  pub no_brace : c ≢ b'}'

Opens-number : (c : ℕ) → (is_digit c || c == b'-') ≡ true → Opens c
unfolding is_digit is_space
Opens-number c h = record {
  no_space = ground arith;
  no_bracket = ground arith;
  no_brace = ground arith;
}

Opens-at : (c : ℕ) → is_space c ≡ false → c ≢ b']' → c ≢ b'}' → Opens c
Opens-at c s a b = record { no_space = s; no_bracket = a; no_brace = b }

pub to_string_literal-Opens : Opens b'"'
unfolding is_space
to_string_literal-Opens = Opens-at b'"' refl (omega arith) (omega arith)

-- The first character of a print.
pub record Front (text : Bytes) : Type 0 where
  pub first : ℕ
  pub more : Bytes
  pub splits : text ≡ first ∷ more
  pub opens : Opens first

Front-IsNumberText : (text : Bytes) → IsNumberText text → Front text
Front-IsNumberText [] n = unfold is_digit in cc n.starts
Front-IsNumberText (c ∷ s) n = record {
  first = c;
  more = s;
  splits = refl;
  opens = Opens-number c n.starts;
}

module _ (F : Floats) (format : Bool) where
  open F use {Double}

  Front-at : (c : ℕ) (s : Bytes) → Opens c → Front (c ∷ s)
  Front-at c s o = record { first = c; more = s; splits = refl; opens = o }

  pub emit-Front : (level : ℕ) (v : Value Double) → Prints F v → Front (emit F format level v)
  unfolding emit is_space
  emit-Front level null h = Front-at _ _ (Opens-at b'n' refl (omega arith) (omega arith))
  emit-Front level (boolean true) h = Front-at _ _ (Opens-at b't' refl (omega arith) (omega arith))
  emit-Front level (boolean false) h = Front-at _ _ (Opens-at b'f' refl (omega arith) (omega arith))
  emit-Front level (integer n) h = Front-IsNumberText _ (to_string_int-IsNumberText n)
  emit-Front level (decimal d) h =
      rw (decimal_text_untrimmed F d) (Front-IsNumberText (F.to_string d) h.is_number)
  emit-Front level (string s) h =
      unfold to_string_literal in Front-at _ _ (Opens-at b'"' refl (omega arith) (omega arith))
  emit-Front level (Value.object fs) h =
      Front-at _ _ (Opens-at b'{' refl (omega arith) (omega arith))
  emit-Front level (Value.array xs) h =
      Front-at _ _ (Opens-at b'[' refl (omega arith) (omega arith))

  -- The text of an array or an object with more text behind it, bracketed to the right.
  pub emit_array-append :
      (level : ℕ) (x : Value Double) (xs : Items Double) (rest : Bytes)
      → emit_array F format level (cons x xs) ++ rest
        ≡ new_line format (level + 1)
          ++ (emit F format (level + 1) x
              ++ (emit_items F format (level + 1) xs ++ (new_line format level ++ (b']' ∷ rest))))
  unfolding emit
  emit_array-append level x xs rest = simp append_assoc

  pub emit_items-append :
      (level : ℕ) (x : Value Double) (xs : Items Double) (rest : Bytes)
      → emit_items F format level (cons x xs) ++ rest
        ≡ b','
          ∷ (new_line format level
              ++ (emit F format level x ++ (emit_items F format level xs ++ rest)))
  unfolding emit
  emit_items-append level x xs rest = simp append_assoc (separator-cons format level _)

  pub emit_object-append :
      (level : ℕ) (k : Bytes) (v : Value Double) (fs : Fields Double) (rest : Bytes)
      → emit_object F format level (field k v fs) ++ rest
        ≡ new_line format (level + 1)
          ++ (to_string_literal k
              ++ (key_sep format
                  ++ (emit F format (level + 1) v
                      ++ (emit_fields F format (level + 1) fs
                          ++ (new_line format level ++ (b'}' ∷ rest))))))
  unfolding emit
  emit_object-append level k v fs rest = simp append_assoc

  pub emit_fields-append :
      (level : ℕ) (k : Bytes) (v : Value Double) (fs : Fields Double) (rest : Bytes)
      → emit_fields F format level (field k v fs) ++ rest
        ≡ b','
          ∷ (new_line format level
              ++ (to_string_literal k
                  ++ (key_sep format
                      ++ (emit F format level v ++ (emit_fields F format level fs ++ rest)))))
  unfolding emit
  emit_fields-append level k v fs rest = simp append_assoc (separator-cons format level _)

  -- What follows an element stops a number or an identifier.
  pub emit_items-Stops :
      (level level' c : ℕ) (xs : Items Double) (rest : Bytes)
      → is_number_char c ≡ false
      → Stops is_number_char
          (emit_items F format level xs ++ (new_line format level' ++ (c ∷ rest)))
  unfolding emit
  emit_items-Stops level level' c nil rest h = new_line-Stops format level' c rest h
  emit_items-Stops level level' c (cons x xs) rest h =
      unfold separator is_number_char is_alnum in refl

  pub emit_fields-Stops :
      (level level' c : ℕ) (fs : Fields Double) (rest : Bytes)
      → is_number_char c ≡ false
      → Stops is_number_char
          (emit_fields F format level fs ++ (new_line format level' ++ (c ∷ rest)))
  unfolding emit
  emit_fields-Stops level level' c end rest h = new_line-Stops format level' c rest h
  emit_fields-Stops level level' c (field k v fs) rest h =
      unfold separator is_number_char is_alnum in refl
