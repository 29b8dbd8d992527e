-- ===== src/MetaModel/Names.antt =====
-- The names of the types of a meta model lead to types of those names.
use lsp_framework_noec.Base.{
  ℕ, zero, suc, ◌≡◌, refl, sym, ap, ◌∙◌, List, [], ◌∷◌, ◌++◌, none, some, Bytes, bytes_key, lookup,
  get_elem?, length, inl, inr, Option-cases, All, All-append,
}
use lsp_framework_noec.MetaModel.Model.{
  TypeIndex, enumeration_at, structure_at, type_alias_at, Model, EnumerationType, Structure,
  TypeAlias, insert_type, add_enumeration, add_structure, add_type_alias, name_at, name_of,
}

abbrev pub keys : {A B : Type 0} → List (A × B) → List A
keys [] = []
keys ((a, b) ∷ m) = a ∷ keys m

-- Each name leads to a type of that name, and the names are listed in the order of the map.
pub record IsNamed {D : Type 0} (m : Model D) : Type 0 where
  pub named : All (λ e. name_at e.1 m ≡ some e.0) m.types_by_name
  pub listed : m.type_names ≡ keys m.types_by_name

module _ {ℓ} {A : Type ℓ} where
  get-append :
      (xs : List A) (y : A) (i : ℕ) (x : A)
      → get_elem? xs i ≡ some x
      → get_elem? (xs ++ y ∷ []) i ≡ some x
  get-append [] y i x e = absurd (cc e)
  get-append (z ∷ xs) y zero x e = e
  get-append (z ∷ xs) y (suc i) x e = get-append xs y i x e

  get-append_last : (xs : List A) (y : A) → get_elem? (xs ++ y ∷ []) (length xs) ≡ some y
  get-append_last [] y = refl
  get-append_last (z ∷ xs) y = get-append_last xs y

keys-append :
    {A B : Type 0} (m : List (A × B)) (a : A) (b : B) → keys (m ++ (a, b) ∷ []) ≡ keys m ++ a ∷ []
keys-append [] a b = refl
keys-append ((c, d) ∷ m) a b = ap (◌∷◌ c) (keys-append m a b)

All-map :
    {A : Type 0} (P Q : A → Type 0) → ((a : A) → P a → Q a) → (xs : List A) → All P xs → All Q xs
All-map P Q f [] h = tt
All-map P Q f (x ∷ xs) (h, hs) = (f x h, All-map P Q f xs hs)

name_of-append :
    {A : Type 0} (name : A → Bytes) (xs : List A) (y : A) (i : ℕ) (k : Bytes)
    → name_of name (get_elem? xs i) ≡ some k
    → name_of name (get_elem? (xs ++ y ∷ []) i) ≡ some k
name_of-append name xs y i k e = elim (Option-cases (get_elem? xs i)) [
  | inl z ↦ let lost : none ≡ some k = ap (name_of name) (sym z) ∙ e in absurd (cc lost)
  | inr (x, z) ↦ ap (name_of name) (get-append xs y i x z ∙ sym z) ∙ e
]

module _ {D : Type 0} where
  abbrev with_name : Bytes → TypeIndex → Model D → Model D
  with_name name index n = record n {
    types_by_name = n.types_by_name ++ (name, index) ∷ [];
    type_names = n.type_names ++ name ∷ [];
  }

  pub insert_type-old :
      (name : Bytes) (index other : TypeIndex) (n : Model D)
      → lookup name n.types_by_name ≡ some other
      → insert_type name index n ≡ n
  unfolding insert_type
  insert_type-old name index other n e = rw e refl

  pub insert_type-new :
      (name : Bytes) (index : TypeIndex) (n : Model D)
      → lookup name n.types_by_name ≡ none
      → insert_type name index n ≡ with_name name index n
  unfolding insert_type
  insert_type-new name index n e = rw e refl

  name_at-with_name :
      (i : TypeIndex) (name : Bytes) (index : TypeIndex) (n : Model D)
      → name_at i (with_name name index n) ≡ name_at i n
  unfolding name_at
  name_at-with_name (enumeration_at i) name index n = refl
  name_at-with_name (structure_at i) name index n = refl
  name_at-with_name (type_alias_at i) name index n = refl

  insert_type-IsNamed :
      (name : Bytes) (index : TypeIndex) (n : Model D)
      → name_at index n ≡ some name
      → IsNamed n
      → IsNamed (insert_type name index n)
  insert_type-IsNamed name index n here h = elim (Option-cases (lookup name n.types_by_name)) [
    | inr (other, e) ↦ rw (insert_type-old name index other n e) h
    | inl e ↦ rw (insert_type-new name index n e) (record {
      named =
          All-append (λ e. name_at e.1 (with_name name index n) ≡ some e.0) n.types_by_name
            ((name, index) ∷ [])
            (All-map (λ e. name_at e.1 n ≡ some e.0)
              (λ e. name_at e.1 (with_name name index n) ≡ some e.0)
              (λ e k. name_at-with_name e.1 name index n ∙ k) n.types_by_name h.named)
            (name_at-with_name index name index n ∙ here, tt);
      listed = ap (λ ks. ks ++ name ∷ []) h.listed ∙ sym (keys-append n.types_by_name name index);
    })
  ]

  enumeration-keeps :
      (e : EnumerationType D) (m : Model D) (i : TypeIndex) (k : Bytes)
      → name_at i m ≡ some k
      → name_at i (record m { enumerations = m.enumerations ++ e ∷ [] }) ≡ some k
  unfolding name_at
  enumeration-keeps e m (enumeration_at i) k h = name_of-append (λ x. x.name) m.enumerations e i k h
  enumeration-keeps e m (structure_at i) k h = h
  enumeration-keeps e m (type_alias_at i) k h = h

  pub add_enumeration-IsNamed :
      (e : EnumerationType D) (m : Model D) → IsNamed m → IsNamed (add_enumeration e m)
  unfolding add_enumeration name_at
  add_enumeration-IsNamed e m h =
      let n = record m { enumerations = m.enumerations ++ e ∷ [] } in
      insert_type-IsNamed e.name (enumeration_at (length m.enumerations)) n
        (ap (name_of (λ x. x.name)) (get-append_last m.enumerations e))
        (record {
          named =
              All-map (λ b. name_at b.1 m ≡ some b.0) (λ b. name_at b.1 n ≡ some b.0)
                (λ b. enumeration-keeps e m b.1 b.0) m.types_by_name h.named;
          listed = h.listed;
        })

  structure-keeps :
      (s : Structure) (m : Model D) (i : TypeIndex) (k : Bytes)
      → name_at i m ≡ some k
      → name_at i (record m { structures = m.structures ++ s ∷ [] }) ≡ some k
  unfolding name_at
  structure-keeps s m (enumeration_at i) k h = h
  structure-keeps s m (structure_at i) k h = name_of-append (λ x. x.name) m.structures s i k h
  structure-keeps s m (type_alias_at i) k h = h

  pub add_structure-IsNamed :
      (s : Structure) (m : Model D) → IsNamed m → IsNamed (add_structure s m)
  unfolding add_structure name_at
  add_structure-IsNamed s m h =
      let n = record m { structures = m.structures ++ s ∷ [] } in
      insert_type-IsNamed s.name (structure_at (length m.structures)) n
        (ap (name_of (λ x. x.name)) (get-append_last m.structures s))
        (record {
          named =
              All-map (λ b. name_at b.1 m ≡ some b.0) (λ b. name_at b.1 n ≡ some b.0)
                (λ b. structure-keeps s m b.1 b.0) m.types_by_name h.named;
          listed = h.listed;
        })

  type_alias-keeps :
      (a : TypeAlias) (m : Model D) (i : TypeIndex) (k : Bytes)
      → name_at i m ≡ some k
      → name_at i (record m { type_aliases = m.type_aliases ++ a ∷ [] }) ≡ some k
  unfolding name_at
  type_alias-keeps a m (enumeration_at i) k h = h
  type_alias-keeps a m (structure_at i) k h = h
  type_alias-keeps a m (type_alias_at i) k h = name_of-append (λ x. x.name) m.type_aliases a i k h

  pub add_type_alias-IsNamed :
      (a : TypeAlias) (m : Model D) → IsNamed m → IsNamed (add_type_alias a m)
  unfolding add_type_alias name_at
  add_type_alias-IsNamed a m h =
      let n = record m { type_aliases = m.type_aliases ++ a ∷ [] } in
      insert_type-IsNamed a.name (type_alias_at (length m.type_aliases)) n
        (ap (name_of (λ x. x.name)) (get-append_last m.type_aliases a))
        (record {
          named =
              All-map (λ b. name_at b.1 m ≡ some b.0) (λ b. name_at b.1 n ≡ some b.0)
                (λ b. type_alias-keeps a m b.1 b.0) m.types_by_name h.named;
          listed = h.listed;
        })
