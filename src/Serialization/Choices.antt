-- ===== src/Serialization/Choices.antt =====
-- `std::optional`, `std::unique_ptr`, `Nullable` and `NullableVariant`, and `std::variant` in
-- lsp/serialization.h.
use lsp_framework_noec.Base.{
  ℕ, zero, suc, ◌≡◌, refl, arith, Bool, true, false, not, ◌&&◌, ◌||◌, Option, none, some, ◌⊎◌, inl,
  inr, if◌then◌else◌, Outcome, ok, terminate,
}
use lsp_framework_noec.Json.Value.{Value, null, is_null}
use lsp_framework_noec.Serialization.Serial.{Serial, ComesBack, map_ok}

module _ {D T : Type 0} (s : Serial D T) where
  abbrev pub or_default : Option T → T
  or_default none = s.default
  or_default (some x) = x

  -- Only a value that is there can be written, which is asserted.
  unfoldable pub optional_to_json : Option T → Outcome ⊥ (Value D)
  optional_to_json none = terminate
  optional_to_json (some x) = ok (s.to_json x)

  unfoldable pub optional_from_json : Value D → Option T → Outcome ⊥ (Option T)
  optional_from_json json old =
      if is_null json && not (s.can_deserialize json)
      then ok none
      else map_ok some (s.from_json json (or_default old))

  unfoldable pub nullable_to_json : Option T → Value D
  nullable_to_json none = null
  nullable_to_json (some x) = s.to_json x

  unfoldable pub nullable_from_json : Value D → Option T → Outcome ⊥ (Option T)
  nullable_from_json json old =
      if is_null json then ok none else map_ok some (s.from_json json (or_default old))

  unfoldable pub serial_nullable : Serial D (Option T)
  serial_nullable = record {
    default = none;
    to_json = nullable_to_json;
    from_json = nullable_from_json;
    can_deserialize = λ json. is_null json || s.can_deserialize json;
  }

  -- A nullable value comes back from its JSON: null, and a value that is not written as null.
  pub serial_nullable-ComesBack :
      (v : Option T)
      → ((x : T) → v ≡ some x → ComesBack s x × (is_null (s.to_json x) ≡ false))
      → ComesBack serial_nullable v
  unfolding serial_nullable nullable_to_json nullable_from_json
  serial_nullable-ComesBack none h = record { recognised = refl; read_back = refl }
  serial_nullable-ComesBack (some x) h =
      let (hx, not_null) = h x refl in
      record {
        recognised = rw (not_null, hx.recognised) refl;
        read_back = rw (not_null, hx.read_back) refl;
      }

  -- An optional value that is there comes back from its JSON, whatever the target held, when a read
  -- into any old value gives it.
  pub optional_from_json-optional_to_json :
      (x : T) (old : Option T)
      → s.can_deserialize (s.to_json x) ≡ true
      → ((y : T) → s.from_json (s.to_json x) y ≡ ok x)
      → (optional_to_json (some x) ≡ ok (s.to_json x))
        × (optional_from_json (s.to_json x) old ≡ ok (some x))
  unfolding optional_from_json optional_to_json
  optional_from_json-optional_to_json x old recognised read_back =
      (refl, ground (arith, recognised, read_back (or_default old)))

-- The alternatives of a `std::variant` from some index on. An index is relative to that one.
pub record Alternatives (D V : Type 0) : Type 0 where
  pub default : V
  -- `std::visit` with `toJson`.
  pub write : V → Value D
  -- `deserializableVariantIndex`, `none` being `std::variant_npos`.
  pub index : Value D → Option ℕ
  -- `variantFromJson`; the old value is `none` where the variant holds an earlier alternative.
  pub read : ℕ → Value D → Option V → Outcome ⊥ (Option V)

-- A value whose JSON no earlier of the alternatives takes, and that comes back from it.
pub record Chosen {D V : Type 0} (a : Alternatives D V) (x : V) : Type 0 where
  pub position : ℕ
  pub index-write : a.index (a.write x) ≡ some position
  pub read-none : a.read position (a.write x) none ≡ ok (some x)
  pub read-default : a.read position (a.write x) (some a.default) ≡ ok (some x)

module _ {D T : Type 0} (s : Serial D T) where
  unfoldable pub read_one : ℕ → Value D → Option T → Outcome ⊥ (Option T)
  read_one zero json old = map_ok some (s.from_json json (or_default s old))
  read_one (suc i) json old = ok old

  unfoldable pub one : Alternatives D T
  one = record {
    default = s.default;
    write = s.to_json;
    index = λ json. if s.can_deserialize json then some 0 else none;
    read = read_one;
  }

  -- The last alternative.
  pub one-Chosen : (x : T) → ComesBack s x → Chosen one x
  unfolding one read_one
  one-Chosen x h = record {
    position = 0;
    index-write = rw h.recognised refl;
    read-none = rw h.read_back refl;
    read-default = rw h.read_back refl;
  }

abbrev pub next_index : Option ℕ → Option ℕ
next_index none = none
next_index (some i) = some (suc i)

abbrev pub left : {A B : Type 0} → Option (A ⊎ B) → Option A
left (some (inl a)) = some a
left _ = none

abbrev pub right : {A B : Type 0} → Option (A ⊎ B) → Option B
right (some (inr b)) = some b
right _ = none

-- The variant behind an access to a later alternative, which held `old`.
abbrev pub right_or : {A B : Type 0} → Option (A ⊎ B) → Option B → Option (A ⊎ B)
right_or old none = old
right_or old (some b) = some (inr b)

module _ {D A B : Type 0} (s : Serial D A) (rest : Alternatives D B) where
  unfoldable pub write_either : A ⊎ B → Value D
  write_either (inl a) = s.to_json a
  write_either (inr b) = rest.write b

  unfoldable pub read_either : ℕ → Value D → Option (A ⊎ B) → Outcome ⊥ (Option (A ⊎ B))
  read_either zero json old =
      map_ok (λ a. some (inl a)) (s.from_json json (or_default s (left old)))
  read_either (suc i) json old = map_ok (right_or old) (rest.read i json (right old))

  unfoldable pub either : Alternatives D (A ⊎ B)
  either = record {
    default = inl s.default;
    write = write_either;
    index = λ json. if s.can_deserialize json then some 0 else next_index (rest.index json);
    read = read_either;
  }

  -- The first alternative.
  pub either-Chosen-inl : (a : A) → ComesBack s a → Chosen either (inl a)
  unfolding either write_either read_either
  either-Chosen-inl a h = record {
    position = 0;
    index-write = rw h.recognised refl;
    read-none = rw h.read_back refl;
    read-default = rw h.read_back refl;
  }

  -- A later alternative.
  pub either-Chosen-inr :
      (b : B) → s.can_deserialize (rest.write b) ≡ false → Chosen rest b → Chosen either (inr b)
  unfolding either write_either read_either
  either-Chosen-inr b refused h = record {
    position = suc h.position;
    index-write = rw (refused, h.index-write) refl;
    read-none = rw h.read-none refl;
    read-default = rw h.read-none refl;
  }

-- How a value is held by its own alternative: that alternative's value comes back by itself, and no
-- alternative before it takes its JSON.
pub data HeldBy {D : Type 0} : (V : Type 0) → Alternatives D V → V → Type 1 where
  last : {T : Type 0} (s : Serial D T) (x : T) → ComesBack s x → HeldBy T (one s) x
  here :
      {A B : Type 0} (s : Serial D A) (rest : Alternatives D B) (a : A)
      → ComesBack s a
      → HeldBy (A ⊎ B) (either s rest) (inl a)
  later :
      {A B : Type 0} (s : Serial D A) (rest : Alternatives D B) (b : B)
      → s.can_deserialize (rest.write b) ≡ false
      → HeldBy B rest b
      → HeldBy (A ⊎ B) (either s rest) (inr b)

HeldBy-Chosen : {D V : Type 0} {a : Alternatives D V} {x : V} → HeldBy V a x → Chosen a x
HeldBy-Chosen (last s x h) = one-Chosen s x h
HeldBy-Chosen (here s rest a h) = either-Chosen-inl s rest a h
HeldBy-Chosen (later s rest b refused h) = either-Chosen-inr s rest b refused (HeldBy-Chosen h)

module _ {D V : Type 0} (a : Alternatives D V) where
  abbrev held_or : V → Option V → V
  held_or old none = old
  held_or old (some x) = x

  -- JSON that no alternative takes changes nothing.
  unfoldable pub variant_from_json : Value D → V → Outcome ⊥ V
  variant_from_json json old = elim (a.index json) [
    | none ↦ ok old
    | some i ↦ map_ok (held_or old) (a.read i json (some old))
  ]

  unfoldable pub can_deserialize_variant : Value D → Bool
  can_deserialize_variant json = elim (a.index json) [ none ↦ false | some i ↦ true ]

  unfoldable pub serial_variant : Serial D V
  serial_variant = record {
    default = a.default;
    to_json = a.write;
    from_json = variant_from_json;
    can_deserialize = can_deserialize_variant;
  }

  Chosen-ComesBack : (x : V) → Chosen a x → ComesBack serial_variant x
  unfolding serial_variant variant_from_json can_deserialize_variant
  Chosen-ComesBack x h = record {
    recognised = ground (arith, h.index-write);
    read_back = ground (arith, h.index-write, h.read-default);
  }

  -- A variant of any number of alternatives comes back from its JSON, with the same alternative, when
  -- the value comes back through the alternative that holds it and no alternative before that one
  -- takes its JSON.
  pub serial_variant-ComesBack : (x : V) → HeldBy V a x → ComesBack serial_variant x
  serial_variant-ComesBack x h = Chosen-ComesBack x (HeldBy-Chosen h)
