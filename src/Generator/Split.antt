-- ===== src/Generator/Split.antt =====
-- `joinStrings` takes back `splitStringView`, and what identifiers are made of.
use lsp_framework_noec.Base.{
  ℕ, zero, suc, ◌+◌, ◌<◌, ◌≡◌, refl, sym, ap, ◌∙◌, ◌⊎◌, inl, inr, Bool, true, false, ◌&&◌, ◌||◌,
  List, [], ◌∷◌, ◌++◌, append_assoc, append-nil, Option, none, some, Bytes, codes, length, take,
  drop, drop-length_append, All, ◌==◌, if◌then◌else◌, ok, Bool-cases, is_alnum, arith,
}
use lsp_framework_noec.Connection.Header.{starts_with}
use lsp_framework_noec.MetaModel.Model.{capitalize_string}
use lsp_framework_noec.Generator.Text.{
  Call, later, find_text, split_match, split_loop, split_string_view, join_rest, join_strings,
  identifier_char, identifier_chars, upper_case_identifier, without_dollar,
}
use lsp_framework_noec.Generator.Stops.{length-drop-find_text, split_string_view-Returns}

starts_with-drop :
    (text pattern : Bytes)
    → starts_with text pattern ≡ true
    → text ≡ pattern ++ drop (length pattern) text
unfolding starts_with
starts_with-drop text [] h = refl
starts_with-drop [] (p ∷ pattern) h = absurd (cc h)
starts_with-drop (c ∷ text) (p ∷ pattern) h = elim (Bool-cases (c == p)) [
  | inl y ↦
      let same : c ≡ p = ground (arith, y) in
      let rest : starts_with text pattern ≡ true = rw y at h in
      ap (λ d. d ∷ text) same ∙ ap (◌∷◌ p) (starts_with-drop text pattern rest)
  | inr n ↦ absurd (cc (rw n at h))
]

-- A text around the first place where a pattern stands.
find_text-take-drop :
    (text pattern : Bytes) (i : ℕ)
    → find_text text pattern ≡ some i
    → text ≡ take i text ++ (pattern ++ drop (i + length pattern) text)
unfolding find_text
find_text-take-drop [] pattern i e = absurd (cc e)
find_text-take-drop (c ∷ text) pattern i e = elim (Bool-cases (starts_with (c ∷ text) pattern)) [
  | inl y ↦
      let first : 0 ≡ i = cc (rw y at e) in
      let none_before : 0 + length pattern ≡ length pattern = omega arith in
      rw (sym first) (
        starts_with-drop (c ∷ text) pattern y
        ∙ ap (λ n. pattern ++ drop n (c ∷ text)) (sym none_before))
  | inr n ↦ go i (find_text text pattern) refl (λ k. find_text-take-drop text pattern k) (rw n at e)
]
  where
    go :
        (j : ℕ) (o : Option ℕ)
        → find_text text pattern ≡ o
        → ((k : ℕ)
            → find_text text pattern ≡ some k
            → text ≡ take k text ++ (pattern ++ drop (k + length pattern) text))
        → later o ≡ some j
        → c ∷ text ≡ take j (c ∷ text) ++ (pattern ++ drop (j + length pattern) (c ∷ text))
    go j none found split h = absurd (cc h)
    go j (some k) found split h =
        let next : suc k ≡ j = cc h in
        let one_more : suc k + length pattern ≡ suc (k + length pattern) = omega arith in
        rw (sym next, one_more) (ap (◌∷◌ c) (split k found))

-- The parts of a text, with a separator in front of each, make the text with a separator in front, but
-- for one at its end.
Joins : Bytes → Bytes → List Bytes → Type 0
Joins separator text parts =
    let joined = join_rest parts separator (λ s. s) in
    (separator ++ text ≡ joined) ⊎ (separator ++ text ≡ joined ++ separator)

split_match-Joins :
    (text : Bytes) (p : ℕ) (separator : Bytes) (again : Bytes → Call (List Bytes)) (o : Option ℕ)
    → find_text text (p ∷ separator) ≡ o
    → ((rest : Bytes)
        → length rest < length text
        → (parts : List Bytes) × (again rest ≡ ok parts) × Joins (p ∷ separator) rest parts)
    → (parts : List Bytes) × (split_match text (p ∷ separator) false again o ≡ ok parts)
      × Joins (p ∷ separator) text parts
unfolding split_match Joins join_rest
split_match-Joins [] p separator again none e h = ([], refl, inr (append-nil (p ∷ separator)))
split_match-Joins (c ∷ text) p separator again none e h =
    let some_text : (length (c ∷ text) == 0) ≡ false = ground arith in
    (
      (c ∷ text) ∷ [],
      rw some_text refl,
      inl (ap (λ r. (p ∷ separator) ++ r) (sym (append-nil (c ∷ text)))),
    )
split_match-Joins text p separator again (some i) e h =
    let sep : Bytes = p ∷ separator in
    let rest = drop (i + length sep) text in
    let (parts, same, joins) = h rest (length-drop-find_text text p separator i e) in
    let whole : sep ++ text ≡ sep ++ (take i text ++ (sep ++ rest)) =
      ap (λ r. sep ++ r) (find_text-take-drop text sep i e) in
    (
      take i text ∷ parts,
      rw same (ap ok (kept (i == 0) parts)),
      around sep text (take i text) rest parts whole joins,
    )
  where
    kept :
        (b : Bool) (parts : List Bytes)
        → (if b && false then parts else take i text ∷ parts) ≡ take i text ∷ parts
    kept true parts = refl
    kept false parts = refl

    around :
        (sep all front rest : Bytes) (parts : List Bytes)
        → sep ++ all ≡ sep ++ (front ++ (sep ++ rest))
        → Joins sep rest parts
        → Joins sep all (front ∷ parts)
    around sep all front rest parts w (inl j) = inl (w ∙ ap (λ r. sep ++ (front ++ r)) j)
    around sep all front rest parts w (inr j) = inr (
        w
        ∙ ap (λ r. sep ++ (front ++ r)) j
        ∙ ap (λ r. sep ++ r) (sym (append_assoc front (join_rest parts sep (λ s. s)) sep))
        ∙ sym (append_assoc sep (front ++ join_rest parts sep (λ s. s)) sep))

split_loop-Joins :
    (fuel : ℕ) (text : Bytes) (p : ℕ) (separator : Bytes)
    → length text < fuel
    → (parts : List Bytes) × (split_loop fuel text (p ∷ separator) false ≡ ok parts)
      × Joins (p ∷ separator) text parts
unfolding split_loop
split_loop-Joins zero text p separator few = absurd (omega (arith, few))
split_loop-Joins (suc fuel) text p separator few =
    split_match-Joins text p separator (λ rest. split_loop fuel rest (p ∷ separator) false)
      (find_text text (p ∷ separator)) refl
      (λ rest shorter. split_loop-Joins fuel rest p separator (omega (arith, shorter, few)))

append-left : (xs ys zs : Bytes) → xs ++ ys ≡ xs ++ zs → ys ≡ zs
append-left xs ys zs e =
    sym (drop-length_append xs ys) ∙ ap (drop (length xs)) e ∙ drop-length_append xs zs

joined_back :
    (text p : Bytes) (parts : List Bytes)
    → Joins p text parts
    → let joined = join_strings parts p (λ s. s) in
      (text ≡ joined) ⊎ (text ≡ joined ++ p) ⊎ (p ++ text ≡ [])
unfolding Joins join_rest join_strings
joined_back text p [] (inl j) = inr (inr j)
joined_back text p [] (inr j) = inl (append-left p text [] (j ∙ sym (append-nil p)))
joined_back text p (s ∷ parts) (inl j) =
    inl (append-left p text (s ++ join_rest parts p (λ r. r)) j)
joined_back text p (s ∷ parts) (inr j) =
    let body = s ++ join_rest parts p (λ r. r) in
    inr (inl (append-left p text (body ++ p) (j ∙ append_assoc p body p)))

-- `joinStrings` on the parts that `splitStringView` finds, with the same separator, which is not empty,
-- gives the text back, but for a separator at its end.
pub join_strings-split_string_view :
    (text : Bytes) (p : ℕ) (separator : Bytes)
    → (parts : List Bytes) × (split_string_view text (p ∷ separator) false ≡ ok parts)
      × ((text ≡ join_strings parts (p ∷ separator) (λ s. s))
          ⊎ (text ≡ join_strings parts (p ∷ separator) (λ s. s) ++ (p ∷ separator)))
unfolding split_string_view
join_strings-split_string_view text p separator =
    let (parts, same, joins) =
      split_loop-Joins (suc (length text)) text p separator (omega arith) in
    (parts, same, go (joined_back text (p ∷ separator) parts joins))
  where
    go : {A B : Type 0} → A ⊎ B ⊎ ((p ∷ separator) ++ text ≡ []) → A ⊎ B
    go (inl a) = inl a
    go (inr (inl b)) = inr b
    go (inr (inr e)) = absurd (cc e)

-- A letter, a digit or an underscore.
abbrev pub IsIdentifierChar : ℕ → Type 0
IsIdentifierChar c = (is_alnum c || c == b'_') ≡ true

identifier_char-IsIdentifierChar : (c : ℕ) → IsIdentifierChar (identifier_char c)
identifier_char-IsIdentifierChar c = elim (Bool-cases (is_alnum c)) [
  | inl y ↦ rw y (rw y refl)
  | inr n ↦ elim (Bool-cases (c == b'_')) [
    | inl y ↦ rw (n, y) (rw (n, y) refl)
    | inr k ↦ rw (n, k) (ground arith)
  ]
]

identifier_chars-All : (text : Bytes) → All IsIdentifierChar (identifier_chars text)
unfolding identifier_chars
identifier_chars-All [] = tt
identifier_chars-All (c ∷ text) = (identifier_char-IsIdentifierChar c, identifier_chars-All text)

-- `upperCaseIdentifier` comes to an end on every name, with letters, digits and underscores only.
pub upper_case_identifier-All :
    (text : Bytes) → (id : Bytes) × (upper_case_identifier text ≡ ok id) × All IsIdentifierChar id
unfolding upper_case_identifier
upper_case_identifier-All text =
    let (parts, same) = split_string_view-Returns (without_dollar text) b'/' [] true in
    let joined = join_strings parts (codes "_") capitalize_string in
    (identifier_chars joined, rw same refl, identifier_chars-All joined)
