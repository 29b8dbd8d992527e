-- ===== src/Generator/Comment.antt =====
-- The comments that `documentationComment` makes.
use lsp_framework_noec.Base.{
  ℕ, zero, suc, ◌+◌, ◌<◌, ◌≡◌, refl, sym, ◌∙◌, ◌⊎◌, inl, inr, Bool, true, false, ◌&&◌, ◌||◌, [],
  ◌∷◌, ◌++◌, Option, none, some, Bytes, codes, length, take, drop, ◌==◌, ok, Bool-cases, arith,
}
use lsp_framework_noec.Connection.Header.{starts_with}
use lsp_framework_noec.Generator.Text.{
  Call, later, find_text, replace_match, replace_loop, replace_string, escaped_line,
}
use lsp_framework_noec.Generator.Stops.{length-drop-find_text, replace_string-Returns}

abbrev pub slash_first : Bytes → Bool
slash_first [] = false
slash_first (c ∷ text) = c == b'/'

-- Whether a comment ends somewhere in a text.
unfoldable pub closes : Bytes → Bool
closes [] = false
closes (c ∷ text) = let rest = closes text in c == b'*' && slash_first text || rest

closes-cons :
    (c : ℕ) (text : Bytes)
    → (c == b'*' && slash_first text) ≡ false
    → closes text ≡ false
    → closes (c ∷ text) ≡ false
unfolding closes
closes-cons c text h k = rw (h, k) refl

slash_first-append :
    (xs ys : Bytes) → slash_first ys ≡ false → (xs ≡ []) ⊎ (slash_first (xs ++ ys) ≡ slash_first xs)
slash_first-append [] ys h = inl refl
slash_first-append (c ∷ xs) ys h = inr refl

pub closes-append :
    (xs ys : Bytes)
    → closes xs ≡ false
    → closes ys ≡ false
    → slash_first ys ≡ false
    → closes (xs ++ ys) ≡ false
unfolding closes
closes-append [] ys h k f = k
closes-append (c ∷ []) ys h k f = rw (k, f) (ground arith)
closes-append (c ∷ d ∷ xs) ys h k f =
    ground (arith, closes-append (d ∷ xs) ys (ground (arith, h)) k f)

star_slash :
    (c : ℕ) (text : Bytes) → starts_with (c ∷ text) (codes "*/") ≡ (c == b'*' && slash_first text)
unfolding starts_with
star_slash c [] = ground arith
star_slash c (d ∷ text) = ground arith

closes-none : (text : Bytes) → find_text text (codes "*/") ≡ none → closes text ≡ false
unfolding find_text closes
closes-none [] e = refl
closes-none (c ∷ text) e = elim (Bool-cases (starts_with (c ∷ text) (codes "*/"))) [
  | inl y ↦ absurd (cc (rw y at e))
  | inr n ↦
      let not_here = sym (star_slash c text) ∙ n in
      closes-cons c text not_here
        (closes-none text (later_none (find_text text (codes "*/")) (rw n at e)))
]
  where
    later_none : (o : Option ℕ) → later o ≡ none → o ≡ none
    later_none none h = refl
    later_none (some i) h = absurd (cc h)

slash_first-take :
    (i : ℕ) (text : Bytes) → slash_first (take i text) ≡ true → slash_first text ≡ true
slash_first-take zero text h = absurd (cc h)
slash_first-take (suc i) [] h = absurd (cc h)
slash_first-take (suc i) (c ∷ text) h = h

-- The text in front of the first place where a comment ends.
closes-take :
    (text : Bytes) (i : ℕ) → find_text text (codes "*/") ≡ some i → closes (take i text) ≡ false
unfolding find_text closes
closes-take [] i e = absurd (cc e)
closes-take (c ∷ text) zero e = refl
closes-take (c ∷ text) (suc i) e = elim (Bool-cases (starts_with (c ∷ text) (codes "*/"))) [
  | inl y ↦ absurd (cc (rw y at e))
  | inr n ↦
      let not_here = sym (star_slash c text) ∙ n in
      closes-cons c (take i text) (still c (take i text) text (slash_first-take i text) not_here)
        (closes-take text i (later_some (find_text text (codes "*/")) i (rw n at e)))
]
  where
    later_some : (o : Option ℕ) (j : ℕ) → later o ≡ some (suc j) → o ≡ some j
    later_some none j h = absurd (cc h)
    later_some (some k) j h = cc h

    still :
        (d : ℕ) (xs ys : Bytes)
        → (slash_first xs ≡ true → slash_first ys ≡ true)
        → (d == b'*' && slash_first ys) ≡ false
        → (d == b'*' && slash_first xs) ≡ false
    still d xs ys h k = elim (Bool-cases (slash_first xs)) [
      | inl y ↦ rw y (rw (h y) at k)
      | inr n ↦ rw n (ground arith)
    ]

closes-escaped : (rest : Bytes) → closes rest ≡ false → closes (codes "*_/" ++ rest) ≡ false
unfolding closes
closes-escaped rest h = h

abbrev pub Safe : Call Bytes → Type 0
Safe r = (text : Bytes) × (r ≡ ok text) × (closes text ≡ false)

replace_match-Safe :
    (text : Bytes) (again : Bytes → Call Bytes) (o : Option ℕ)
    → find_text text (codes "*/") ≡ o
    → ((rest : Bytes) → length rest < length text → Safe (again rest))
    → Safe (replace_match text (codes "*/") (codes "*_/") again o)
unfolding replace_match
replace_match-Safe text again none e h = (text, refl, closes-none text e)
replace_match-Safe text again (some i) e h =
    let (out, same, safe) =
      h (drop (i + 2) text) (length-drop-find_text text b'*' (codes "/") i e) in
    (
      take i text ++ (codes "*_/" ++ out),
      rw same refl,
      closes-append (take i text) (codes "*_/" ++ out) (closes-take text i e)
          (closes-escaped out safe) refl,
    )

replace_loop-Safe :
    (fuel : ℕ) (text : Bytes)
    → length text < fuel
    → Safe (replace_loop fuel text (codes "*/") (codes "*_/"))
unfolding replace_loop
replace_loop-Safe zero text few = absurd (omega (arith, few))
replace_loop-Safe (suc fuel) text few =
    replace_match-Safe text (λ rest. replace_loop fuel rest (codes "*/") (codes "*_/"))
      (find_text text (codes "*/")) refl
      (λ rest shorter. replace_loop-Safe fuel rest (omega (arith, shorter, few)))

-- No comment ends in a line of a documentation.
pub escaped_line-Safe : (line : Bytes) → Safe (escaped_line line)
unfolding escaped_line replace_string
escaped_line-Safe line =
    let (opened, same) = replace_string-Returns line b'/' (codes "*") (codes "/_*") in
    rw same (replace_loop-Safe (suc (length opened)) opened (omega arith))
