-- ===== src/Generator/Stops.antt =====
-- The loops of `replaceString` and `splitStringView` come to an end for a pattern that is not empty.
use lsp_framework_noec.Base.{
  ℕ, zero, suc, ◌+◌, ◌<◌, ◌≡◌, refl, inl, inr, Bool, List, [], ◌∷◌, Option, none, some, Bytes,
  length, drop, length-drop, take, ◌++◌, ◌==◌, ◌&&◌, if◌then◌else◌, ok, Bool-cases, arith,
}
use lsp_framework_noec.Connection.Header.{starts_with}
use lsp_framework_noec.Generator.Text.{
  Call, later, find_text, replace_match, replace_loop, replace_string, split_match, split_loop,
  split_string_view,
}

-- A call that comes to a value.
abbrev pub Returns : {A : Type 0} → Call A → Type 0
Returns {A} r = (a : A) × (r ≡ ok a)

later-below :
    (o : Option ℕ) (n i : ℕ) → ((j : ℕ) → o ≡ some j → j < n) → later o ≡ some i → i < suc n
later-below none n i h e = absurd (cc e)
later-below (some j) n i h e =
    let below = h j refl in let next : suc j ≡ i = cc e in omega (arith, below, next)

pub find_text-below :
    (text pattern : Bytes) (i : ℕ) → find_text text pattern ≡ some i → i < length text
unfolding find_text
find_text-below [] pattern i e = absurd (cc e)
find_text-below (c ∷ text) pattern i e = elim (Bool-cases (starts_with (c ∷ text) pattern)) [
  | inl y ↦ let first : 0 ≡ i = cc (rw y at e) in omega (arith, first)
  | inr n ↦
      later-below (find_text text pattern) (length text) i (λ j. find_text-below text pattern j)
        (rw n at e)
]

-- The rest behind a pattern that was found is shorter.
pub length-drop-find_text :
    (text : Bytes) (p : ℕ) (pattern : Bytes) (i : ℕ)
    → find_text text (p ∷ pattern) ≡ some i
    → length (drop (i + length (p ∷ pattern)) text) < length text
length-drop-find_text text p pattern i e =
    omega
      (arith, length-drop (i + length (p ∷ pattern)) text, find_text-below text (p ∷ pattern) i e)

replace_match-Returns :
    (text : Bytes) (p : ℕ) (pattern replacement : Bytes) (again : Bytes → Call Bytes) (o : Option ℕ)
    → find_text text (p ∷ pattern) ≡ o
    → ((rest : Bytes) → length rest < length text → Returns (again rest))
    → Returns (replace_match text (p ∷ pattern) replacement again o)
unfolding replace_match
replace_match-Returns text p pattern replacement again none e h = (text, refl)
replace_match-Returns text p pattern replacement again (some i) e h =
    let (out, same) =
      h (drop (i + length (p ∷ pattern)) text) (length-drop-find_text text p pattern i e) in
    (take i text ++ (replacement ++ out), rw same refl)

replace_loop-Returns :
    (fuel : ℕ) (text : Bytes) (p : ℕ) (pattern replacement : Bytes)
    → length text < fuel
    → Returns (replace_loop fuel text (p ∷ pattern) replacement)
unfolding replace_loop
replace_loop-Returns zero text p pattern replacement few = absurd (omega (arith, few))
replace_loop-Returns (suc fuel) text p pattern replacement few =
    replace_match-Returns text p pattern replacement
      (λ rest. replace_loop fuel rest (p ∷ pattern) replacement) (find_text text (p ∷ pattern)) refl
      (λ rest shorter.
        replace_loop-Returns fuel rest p pattern replacement (omega (arith, shorter, few)))

pub replace_string-Returns :
    (text : Bytes) (p : ℕ) (pattern replacement : Bytes)
    → Returns (replace_string text (p ∷ pattern) replacement)
unfolding replace_string
replace_string-Returns text p pattern replacement =
    replace_loop-Returns (suc (length text)) text p pattern replacement (omega arith)

split_match-Returns :
    (text : Bytes) (p : ℕ) (separator : Bytes) (skip : Bool) (again : Bytes → Call (List Bytes))
    (o : Option ℕ)
    → find_text text (p ∷ separator) ≡ o
    → ((rest : Bytes) → length rest < length text → Returns (again rest))
    → Returns (split_match text (p ∷ separator) skip again o)
unfolding split_match
split_match-Returns text p separator skip again none e h =
    ((if length text == 0 then [] else text ∷ []), refl)
split_match-Returns text p separator skip again (some i) e h =
    let (parts, same) =
      h (drop (i + length (p ∷ separator)) text) (length-drop-find_text text p separator i e) in
    ((if i == 0 && skip then parts else take i text ∷ parts), rw same refl)

split_loop-Returns :
    (fuel : ℕ) (text : Bytes) (p : ℕ) (separator : Bytes) (skip : Bool)
    → length text < fuel
    → Returns (split_loop fuel text (p ∷ separator) skip)
unfolding split_loop
split_loop-Returns zero text p separator skip few = absurd (omega (arith, few))
split_loop-Returns (suc fuel) text p separator skip few =
    split_match-Returns text p separator skip (λ rest. split_loop fuel rest (p ∷ separator) skip)
      (find_text text (p ∷ separator)) refl
      (λ rest shorter. split_loop-Returns fuel rest p separator skip (omega (arith, shorter, few)))

pub split_string_view-Returns :
    (text : Bytes) (p : ℕ) (separator : Bytes) (skip : Bool)
    → Returns (split_string_view text (p ∷ separator) skip)
unfolding split_string_view
split_string_view-Returns text p separator skip =
    split_loop-Returns (suc (length text)) text p separator skip (omega arith)
