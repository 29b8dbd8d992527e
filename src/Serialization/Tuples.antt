-- ===== src/Serialization/Tuples.antt =====
-- `std::tuple` in lsp/serialization.h.
use lsp_framework_noec.Base.{
  ℕ, suc, ◌≡◌, refl, ap, ◌>>=◌, Bool, true, false, not, ◌&&◌, ◌||◌, ◌==◌, bytes_key, if◌then◌else◌,
  Outcome, ok, terminate, arith,
}
use lsp_framework_noec.Json.Value.{Value, Items, nil, cons, items_size}
use lsp_framework_noec.Serialization.Serial.{Serial, ComesBack, value_of}
use lsp_framework_noec.Serialization.Scalars.{as_array}

-- The elements of a `std::tuple` from some index on.
pub record Elements (D T : Type 0) : Type 0 where
  pub size : ℕ
  pub default : T
  pub write : T → Items D
  pub read : Items D → T → Outcome ⊥ T
  -- `canDeserializeTupleFromJson` from this index on: one element that fits is enough.
  pub any : Items D → Bool

-- The elements of a tuple that come back from their array.
pub record Returns {D T : Type 0} (e : Elements D T) (x : T) : Type 0 where
  pub size-write : items_size (e.write x) ≡ e.size
  pub read-write : e.read (e.write x) e.default ≡ ok x
  pub any-write : e.any (e.write x) ≡ true

module _ {D T : Type 0} (s : Serial D T) where
  unfoldable pub read_last : Items D → T → Outcome ⊥ T
  read_last nil old = terminate
  read_last (cons v vs) old = s.from_json v old

  unfoldable pub fits_last : Items D → Bool
  fits_last nil = false
  fits_last (cons v vs) = s.can_deserialize v

  unfoldable pub last : Elements D T
  last = record {
    size = 1;
    default = s.default;
    write = λ x. cons (s.to_json x) nil;
    read = read_last;
    any = fits_last;
  }

  -- The last element.
  pub last-Returns : (x : T) → ComesBack s x → Returns last x
  unfolding last read_last fits_last
  last-Returns x h = record {
    size-write = refl;
    read-write = h.read_back;
    any-write = h.recognised;
  }

module _ {D A B : Type 0} (s : Serial D A) (e : Elements D B) where
  unfoldable pub read_element : Items D → A × B → Outcome ⊥ (A × B)
  read_element nil old = terminate
  read_element (cons v vs) (a, b) = do x ← s.from_json v a; y ← e.read vs b; ok (x, y)

  unfoldable pub fits_element : Items D → Bool
  fits_element nil = false
  fits_element (cons v vs) = s.can_deserialize v || e.any vs

  unfoldable pub element : Elements D (A × B)
  element = record {
    size = suc e.size;
    default = (s.default, e.default);
    write = λ x. cons (s.to_json x.0) (e.write x.1);
    read = read_element;
    any = fits_element;
  }

  -- An element before others.
  pub element-Returns : (x : A × B) → ComesBack s x.0 → Returns e x.1 → Returns element x
  unfolding element read_element fits_element
  element-Returns x ha hb = record {
    size-write = ap suc hb.size-write;
    read-write = simp (ha.read_back, hb.read-write);
    any-write = simp (ha.recognised);
  }

module _ {D T : Type 0} (e : Elements D T) where
  -- An array of another size changes nothing.
  unfoldable pub tuple_from_json : Value D → T → Outcome ⊥ T
  tuple_from_json json old = do
    vs ← value_of (as_array json)
    if not (e.size == items_size vs) then ok old else e.read vs old

  unfoldable pub can_deserialize_tuple : Value D → Bool
  can_deserialize_tuple (Value.array vs) = (items_size vs == e.size) && e.any vs
  can_deserialize_tuple _ = false

  unfoldable pub serial_tuple : Serial D T
  serial_tuple = record {
    default = e.default;
    to_json = λ x. Value.array (e.write x);
    from_json = tuple_from_json;
    can_deserialize = can_deserialize_tuple;
  }

  -- A tuple of values that come back from their JSON comes back from its JSON.
  pub serial_tuple-ComesBack : (x : T) → Returns e x → ComesBack serial_tuple x
  unfolding serial_tuple tuple_from_json can_deserialize_tuple
  serial_tuple-ComesBack x h = record {
    recognised = ground (arith, h.size-write, h.any-write);
    read_back = ground (arith, h.size-write, h.read-write);
  }
