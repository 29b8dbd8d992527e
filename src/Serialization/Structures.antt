-- ===== src/Serialization/Structures.antt =====
-- `canDeserializeTypeFromJson` of a generated structure type, which has literal and required
-- properties.
use lsp_framework_noec.Base.{
  ◌≡◌, refl, sym, ◌↔◌, ◌⊎◌, inl, inr, Bool, true, false, not, List, [], ◌∷◌, Option, none, some,
  Bytes, All, Bool-cases, if◌then◌else◌,
}
use lsp_framework_noec.Json.Value.{
  Value, Fields, null, boolean, integer, decimal, string, array, object,
}
use lsp_framework_noec.Json.Equality.{value_eq}
use lsp_framework_noec.Json.Object.{find, contains}

-- `literalProperties<T>()` and `requiredProperties<T>()`.
pub record Traits (D : Type 0) : Type 0 where
  pub literals : List (Bytes × Value D)
  pub required : List Bytes

both :
    {A B : Type 0} (a b : Bool)
    → (a ≡ true) ↔ A
    → (b ≡ true) ↔ B
    → ((if not a then false else b) ≡ true) ↔ (A × B)
both true b (f, g) (h, k) = (λ e. (f refl, h e), λ p. k p.1)
both false b (f, g) (h, k) = (λ e. absurd (cc e), λ p. absurd (cc (g p.0)))

module _ {D : Type 0} (double_eq : D → D → Bool) where
  -- A literal property that is missing does not matter here.
  abbrev pub literal_fits : Value D → Option (Value D) → Bool
  literal_fits v none = true
  literal_fits v (some w) = value_eq double_eq w v

  unfoldable pub has_literal_properties : List (Bytes × Value D) → Fields D → Bool
  has_literal_properties [] fs = true
  has_literal_properties ((k, v) ∷ literals) fs =
      let rest = has_literal_properties literals fs in
      if not (literal_fits v (find k fs)) then false else rest

  unfoldable pub has_required_properties : List Bytes → Fields D → Bool
  has_required_properties [] fs = true
  has_required_properties (k ∷ required) fs =
      let rest = has_required_properties required fs in if not (contains k fs) then false else rest

  unfoldable pub can_deserialize_structure : Traits D → Value D → Bool
  can_deserialize_structure traits (object fs) =
      if has_literal_properties traits.literals fs
      then has_required_properties traits.required fs
      else false
  can_deserialize_structure traits _ = false

  -- The fields have a literal, or have no such property.
  abbrev pub Agrees : Fields D → Bytes × Value D → Type 0
  Agrees fs (k, v) =
      (find k fs ≡ none) ⊎ ((w : Value D) × (find k fs ≡ some w) × (value_eq double_eq w v ≡ true))

  abbrev pub Recognised : Traits D → Value D → Type 0
  Recognised traits json =
      (fs : Fields D) × (json ≡ object fs)
      × All (Agrees fs) traits.literals
      × All (λ k. contains k fs ≡ true) traits.required

  literal_fits-Agrees :
      (k : Bytes) (v : Value D) (fs : Fields D) (o : Option (Value D))
      → find k fs ≡ o
      → (literal_fits v o ≡ true) ↔ Agrees fs (k, v)
  literal_fits-Agrees k v fs none e = (λ h. inl e, λ a. refl)
  literal_fits-Agrees k v fs (some w) e = (λ h. inr (w, e, h), back)
    where
      back : Agrees fs (k, v) → value_eq double_eq w v ≡ true
      back (inl missing) = absurd (cc (missing, e))
      back (inr (u, found, equal)) = let same : u ≡ w = cc (found, e) in rw (sym same) equal

  has_literal_properties-All :
      (literals : List (Bytes × Value D)) (fs : Fields D)
      → (has_literal_properties literals fs ≡ true) ↔ All (Agrees fs) literals
  unfolding has_literal_properties
  has_literal_properties-All [] fs = (λ h. tt, λ h. refl)
  has_literal_properties-All ((k, v) ∷ literals) fs =
      both (literal_fits v (find k fs)) (has_literal_properties literals fs)
        (literal_fits-Agrees k v fs (find k fs) refl) (has_literal_properties-All literals fs)

  has_required_properties-All :
      (required : List Bytes) (fs : Fields D)
      → (has_required_properties required fs ≡ true) ↔ All (λ k. contains k fs ≡ true) required
  unfolding has_required_properties
  has_required_properties-All [] fs = (λ h. tt, λ h. refl)
  has_required_properties-All (k ∷ required) fs =
      both (contains k fs) (has_required_properties required fs) (λ h. h, λ h. h)
        (has_required_properties-All required fs)

  -- A structure type is recognised in exactly the objects that have all its required properties and
  -- none of whose properties contradicts a literal of the type.
  pub can_deserialize_structure-Recognised :
      (traits : Traits D) (json : Value D)
      → (can_deserialize_structure traits json ≡ true) ↔ Recognised traits json
  unfolding can_deserialize_structure
  can_deserialize_structure-Recognised traits (object fs) =
      let (f, g) = has_literal_properties-All traits.literals fs in
      let (h, k) = has_required_properties-All traits.required fs in
      (
        λ e. elim (Bool-cases (has_literal_properties traits.literals fs)) [
          | inl y ↦ (fs, refl, f y, h (rw y at e))
          | inr n ↦ absurd (cc (rw n at e))
        ],
        λ r. let same : fs ≡ r.0 = cc (r.1) in rw (g (rw same r.2)) (k (rw same r.3)),
      )
  can_deserialize_structure-Recognised traits null = (λ e. absurd (cc e), λ r. absurd (cc (r.1)))
  can_deserialize_structure-Recognised traits (boolean b) =
      (λ e. absurd (cc e), λ r. absurd (cc (r.1)))
  can_deserialize_structure-Recognised traits (integer n) =
      (λ e. absurd (cc e), λ r. absurd (cc (r.1)))
  can_deserialize_structure-Recognised traits (decimal d) =
      (λ e. absurd (cc e), λ r. absurd (cc (r.1)))
  can_deserialize_structure-Recognised traits (string s) =
      (λ e. absurd (cc e), λ r. absurd (cc (r.1)))
  can_deserialize_structure-Recognised traits (array vs) =
      (λ e. absurd (cc e), λ r. absurd (cc (r.1)))
