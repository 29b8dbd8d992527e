-- ===== src/Serialization/Enumeration.antt =====
-- `Enumeration` of lsp/enumeration.h, and its JSON.
use lsp_framework_noec.Base.{
  ℕ, zero, suc, ◌<◌, ◌+◌, ◌≡◌, ap, inl, inr, Bool, ◌==◌, Option, none, some, List, [], ◌∷◌,
  get_elem?, length, Key, if◌then◌else◌, Outcome, ok, Option-cases, Bool-cases, arith,
}
use lsp_framework_noec.Json.Value.{Value}
use lsp_framework_noec.Serialization.Serial.{Serial, ComesBack, map_ok}

-- `m_index` and `m_customValue`. The index of a custom value, `MAX_VALUE`, is the number of the
-- known values.
pub record Enumeration (V : Type 0) : Type 0 where
  pub index : ℕ
  pub custom_value : V

module _ {D V : Type 0} ⦃k : Key V⦄ (s_values : List V) (s : Serial D V) where
  abbrev pub max_value : ℕ
  max_value = length s_values

  -- `Enumeration()`.
  unfoldable pub no_enumeration : Enumeration V
  no_enumeration = record { index = max_value; custom_value = s.default }

  unfoldable pub has_custom_value : Enumeration V → Bool
  has_custom_value e = e.index == max_value

  -- An index out of bounds is no enumerator, and is read as a default.
  unfoldable pub enumeration_value : Enumeration V → V
  enumeration_value e =
      if has_custom_value e
      then e.custom_value
      else elim (get_elem? s_values e.index) [ none ↦ s.default | some v ↦ v ]

  -- The loop over `s_values`, from index `i` on.
  unfoldable pub index_from : ℕ → List V → V → Option ℕ
  index_from i [] other = none
  index_from i (v ∷ vs) other =
      let rest = index_from (suc i) vs other in if k.key_eq v other then some i else rest

  -- `operator=(ValueType&&)`.
  unfoldable pub assign_value : V → Enumeration V → Enumeration V
  assign_value other e = elim (index_from 0 s_values other) [
    | none ↦ record { index = max_value; custom_value = other }
    | some i ↦ record { index = i; custom_value = e.custom_value }
  ]

  unfoldable pub enumeration_from_json : Value D → Enumeration V → Outcome ⊥ (Enumeration V)
  enumeration_from_json json e = map_ok (λ v. assign_value v e) (s.from_json json s.default)

  unfoldable pub serial_enumeration : Serial D (Enumeration V)
  serial_enumeration = record {
    default = no_enumeration;
    to_json = λ e. s.to_json (enumeration_value e);
    from_json = enumeration_from_json;
    can_deserialize = s.can_deserialize;
  }

  index_from-get :
      (i j : ℕ) (vs : List V) (other : V)
      → index_from i vs other ≡ some j
      → (n : ℕ) × (j ≡ i + n) × (n < length vs) × (get_elem? vs n ≡ some other)
  unfolding index_from
  index_from-get i j [] other h = grind arith
  index_from-get i j (v ∷ vs) other h = elim (Bool-cases (k.key_eq v other)) [
    | inl e ↦ (
      zero,
      ground (arith, k.key_eq_iff v other),
      omega arith,
      ap some ((k.key_eq_iff v other).0 e),
    )
    | inr e ↦
        let (n, hj, hn, found) = index_from-get (suc i) j vs other (simp (e) at h) in
        (suc n, omega arith, omega arith, found)
  ]

  -- After the assignment of a value, the enumeration has that value.
  assign_value-enumeration_value :
      (v : V) (e : Enumeration V) → enumeration_value (assign_value v e) ≡ v
  unfolding assign_value enumeration_value has_custom_value
  assign_value-enumeration_value v e = elim (Option-cases (index_from 0 s_values v)) [
    | inl h ↦ ground (arith, h)
    | inr (j, h) ↦
        let (n, hj, hn, found) = index_from-get 0 j s_values v h in ground (arith, h, found)
  ]

  -- An enumeration, with a known or a custom value, is read back from its JSON with the same value,
  -- whatever the target held, when that value comes back from its JSON.
  pub enumeration_from_json-enumeration_value :
      (e old : Enumeration V)
      → ComesBack s (enumeration_value e)
      → (f : Enumeration V) × (serial_enumeration.from_json (serial_enumeration.to_json e) old
          ≡ ok f)
        × (enumeration_value f ≡ enumeration_value e)
  unfolding serial_enumeration enumeration_from_json
  enumeration_from_json-enumeration_value e old h =
      let v = enumeration_value e in
      (assign_value v old, simp (h.read_back), assign_value-enumeration_value v old)
