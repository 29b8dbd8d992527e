-- ===== src/MetaModel/Total.antt =====
-- `createFromJson` comes to an end on every JSON object.
use lsp_framework_noec.Base.{ℕ, zero, suc, ◌≤◌, ◌<◌, ◌≢◌, codes, Outcome, out_of_fuel, arith}
use lsp_framework_noec.Json.Value.{Value, Items, nil, cons, Fields}
use lsp_framework_noec.Json.Floats.{Floats}
use lsp_framework_noec.Json.Parser.Ends.{Ends-ne}
use lsp_framework_noec.Jsonrpc.{as_integer}
use lsp_framework_noec.Serialization.Serial.{value_of}
use lsp_framework_noec.MetaModel.Types.{
  Category, base_category, reference_category, array_category, map_category, and_category,
  or_category, tuple_category, literal_category, string_literal_category, integer_literal_category,
  boolean_literal_category, type_category_strings, base_type_strings, from_string, MetaType,
}
use lsp_framework_noec.MetaModel.Extract.{
  create_types, extract_properties, extract_structure_properties, create_alternatives, extract_type,
  create_within, items_weight, fields_weight, create_from_json,
}
use lsp_framework_noec.MetaModel.Stops.{
  Anything, Stops, Stops-bind, boolean_member-Stops, documentation-Stops, found-Stops,
  optional-Stops, text_member-Stops, then_array_member, then_get, then_object, then_object_member,
}

module _ {D : Type 0} (create : Fields D → Outcome ⊥ MetaType) where
  -- `create` comes to an end on objects with less than `n` values.
  abbrev pub Creates : ℕ → Type 0
  Creates n = (gs : Fields D) → fields_weight gs < n → Stops (create gs)

  pub create_types-Stops :
      (n : ℕ) (xs : Items D) → Creates n → items_weight xs ≤ n → Stops (create_types create xs)
  unfolding create_types items_weight
  create_types-Stops n nil c h = tt
  create_types-Stops n (cons v vs) c h = then_object Anything v _ (λ gs l.
      Stops-bind _ _ (c gs (omega arith))
        (λ t. Stops-bind _ _ (create_types-Stops n vs c (omega arith)) (λ ts. tt)))

  create_alternatives-Stops :
      (n : ℕ) (xs : Items D)
      → Creates n
      → items_weight xs ≤ n
      → Stops (create_alternatives create xs)
  unfolding create_alternatives items_weight
  create_alternatives-Stops n nil c h = tt
  create_alternatives-Stops n (cons v vs) c h = then_object Anything v _ (λ gs l.
      Stops-bind _ _ (c gs (omega arith))
        (λ t. Stops-bind _ _ (create_alternatives-Stops n vs c (omega arith)) (λ ts. tt)))

  pub extract_properties-Stops :
      (n : ℕ) (xs : Items D)
      → Creates n
      → items_weight xs ≤ n
      → Stops (extract_properties create xs)
  unfolding extract_properties items_weight
  extract_properties-Stops n nil c h = tt
  extract_properties-Stops n (cons v vs) c h = then_object Anything v _ (λ gs l.
      Stops-bind _ _ (text_member-Stops (codes "name") gs) (λ name.
        then_object_member Anything (codes "type") gs _ (λ js m.
          Stops-bind _ _ (c js (omega arith)) (λ t. Stops-bind _ _ (optional-Stops gs) (λ o.
            Stops-bind _ _ (documentation-Stops gs)
              (λ d. Stops-bind _ _ (extract_properties-Stops n vs c (omega arith)) (λ ps. tt)))))))

module _ (F : Floats) where
  integer-Stops : (v : Value F.Double) → Stops (value_of (as_integer F v))
  integer-Stops (Value.integer n) = tt
  integer-Stops (Value.decimal d) = tt
  integer-Stops _ = tt

  extract_type-Stops :
      (create : Fields F.Double → Outcome ⊥ MetaType) (category : Category) (fs : Fields F.Double)
      → Creates create (fields_weight fs)
      → Stops (extract_type F create category fs)
  unfolding extract_type extract_structure_properties
  extract_type-Stops create base_category fs c =
      Stops-bind _ _ (text_member-Stops (codes "name") fs)
        (λ name. Stops-bind _ _ (found-Stops (from_string base_type_strings name)) (λ kind. tt))
  extract_type-Stops create reference_category fs c =
      Stops-bind _ _ (text_member-Stops (codes "name") fs) (λ name. tt)
  extract_type-Stops create array_category fs c =
      then_object_member Anything (codes "element") fs _ (λ gs l. Stops-bind _ _ (c gs l) (λ t. tt))
  extract_type-Stops create map_category fs c =
      then_object_member Anything (codes "key") fs _ (λ gs l. Stops-bind _ _ (c gs l) (λ k.
        then_object_member Anything (codes "value") fs _
          (λ hs m. Stops-bind _ _ (c hs m) (λ v. tt))))
  extract_type-Stops create and_category fs c =
      then_array_member Anything (codes "items") fs _ (λ xs l.
        Stops-bind _ _ (create_types-Stops create (fields_weight fs) xs c (omega arith)) (λ ts. tt))
  extract_type-Stops create or_category fs c =
      then_array_member Anything (codes "items") fs _ (λ xs l.
        Stops-bind _ _ (create_alternatives-Stops create (fields_weight fs) xs c (omega arith))
          (λ ts. tt))
  extract_type-Stops create tuple_category fs c =
      then_array_member Anything (codes "items") fs _ (λ xs l.
        Stops-bind _ _ (create_types-Stops create (fields_weight fs) xs c (omega arith)) (λ ts. tt))
  extract_type-Stops create literal_category fs c =
      then_object_member Anything (codes "value") fs _ (λ gs l.
        then_array_member Anything (codes "properties") gs _ (λ xs m.
          Stops-bind _ _
            (Stops-bind _ _ (extract_properties-Stops create (fields_weight fs) xs c (omega arith))
              (λ ps. tt))
            (λ ps. tt)))
  extract_type-Stops create string_literal_category fs c =
      Stops-bind _ _ (text_member-Stops (codes "value") fs) (λ s. tt)
  extract_type-Stops create integer_literal_category fs c =
      then_get Anything (codes "value") fs _ (λ v l. Stops-bind _ _ (integer-Stops v) (λ n. tt))
  extract_type-Stops create boolean_literal_category fs c =
      Stops-bind _ _ (boolean_member-Stops (codes "value") fs) (λ b. tt)

  create_within-Stops :
      (n : ℕ) (fs : Fields F.Double) → fields_weight fs < n → Stops (create_within F n fs)
  unfolding create_within
  create_within-Stops zero fs h = absurd (omega arith)
  create_within-Stops (suc n) fs h = Stops-bind _ _ (text_member-Stops (codes "kind") fs) (λ kind.
      Stops-bind _ _ (found-Stops (from_string type_category_strings kind)) (λ category.
        extract_type-Stops (create_within F n) category fs
          (λ gs l. create_within-Stops n gs (omega arith))))

  pub create-Stops : (fs : Fields F.Double) → Stops (create_from_json F fs)
  unfolding create_from_json
  create-Stops fs = create_within-Stops (suc (fields_weight fs)) fs (omega arith)

  -- `createFromJson` comes to an end on every JSON object: the depth that it is given is enough.
  pub create_from_json-ne-out_of_fuel : (fs : Fields F.Double) → create_from_json F fs ≢ out_of_fuel
  create_from_json-ne-out_of_fuel fs = Ends-ne (λ _. Unit) (create_from_json F fs) (create-Stops fs)
