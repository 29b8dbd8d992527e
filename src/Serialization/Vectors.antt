-- ===== src/Serialization/Vectors.antt =====
-- `std::vector` in lsp/serialization.h.
use lsp_framework_noec.Base.{
  ◌≡◌, refl, sym, ap, ◌>>=◌, Bool, true, false, List, [], ◌∷◌, ◌++◌, append_assoc, append-nil, All,
  bytes_key, Outcome, ok,
}
use lsp_framework_noec.Json.Value.{Value, Items, nil, cons}
use lsp_framework_noec.Serialization.Serial.{Serial, ComesBack, value_of}
use lsp_framework_noec.Serialization.Scalars.{as_array}

module _ {D T : Type 0} (s : Serial D T) where
  unfoldable pub vector_items : List T → Items D
  vector_items [] = nil
  vector_items (x ∷ xs) = cons (s.to_json x) (vector_items xs)

  -- Each element is read into a new one at the end.
  unfoldable pub emplace_items : Items D → List T → Outcome ⊥ (List T)
  emplace_items nil xs = ok xs
  emplace_items (cons e es) xs = do x ← s.from_json e s.default; emplace_items es (xs ++ (x ∷ []))

  -- The elements are added to those that the vector holds.
  unfoldable pub vector_from_json : Value D → List T → Outcome ⊥ (List T)
  vector_from_json json old = do es ← value_of (as_array json); emplace_items es old

  -- Only the first element is looked at.
  unfoldable pub can_deserialize_vector : Value D → Bool
  can_deserialize_vector (Value.array nil) = true
  can_deserialize_vector (Value.array (cons e es)) = s.can_deserialize e
  can_deserialize_vector _ = false

  unfoldable pub serial_vector : Serial D (List T)
  serial_vector = record {
    default = [];
    to_json = λ xs. Value.array (vector_items xs);
    from_json = vector_from_json;
    can_deserialize = can_deserialize_vector;
  }

  emplace_items-vector_items :
      (xs old : List T)
      → All (ComesBack s) xs
      → emplace_items (vector_items xs) old ≡ ok (old ++ xs)
  unfolding emplace_items vector_items
  emplace_items-vector_items [] old h = ap ok (sym (append-nil old))
  emplace_items-vector_items (x ∷ xs) old (hx, h) =
      simp (hx.read_back, emplace_items-vector_items xs (old ++ (x ∷ [])) h, append_assoc)

  -- A vector of values that come back from their JSON comes back from its JSON.
  pub serial_vector-ComesBack : (xs : List T) → All (ComesBack s) xs → ComesBack serial_vector xs
  unfolding serial_vector vector_from_json can_deserialize_vector vector_items
  serial_vector-ComesBack [] h = record {
    recognised = refl;
    read_back = emplace_items-vector_items [] [] h;
  }
  serial_vector-ComesBack (x ∷ xs) h = record {
    recognised = h.0.recognised;
    read_back = emplace_items-vector_items (x ∷ xs) [] h;
  }
