-- ===== src/MetaModel/Extract.antt =====
-- The types of the meta model in its JSON: `extract` and `createFromJson` of lspgen/lspgen.cpp.
use lsp_framework_noec.Base.{
  ℕ, zero, suc, ◌+◌, Bool, false, List, [], ◌∷◌, Option, none, some, Bytes, codes, if◌then◌else◌,
  Outcome, ok, terminate, out_of_fuel, ◌>>=◌,
}
use lsp_framework_noec.Json.Value.{Value, Items, nil, cons, Fields, end, field}
use lsp_framework_noec.Json.Object.{get, contains}
use lsp_framework_noec.Json.Floats.{Floats}
use lsp_framework_noec.Jsonrpc.{as_string, as_object, as_integer}
use lsp_framework_noec.Serialization.Serial.{value_of}
use lsp_framework_noec.Serialization.Scalars.{as_boolean, as_array}
use lsp_framework_noec.MetaModel.Types.{
  Category, base_category, reference_category, array_category, map_category, and_category,
  or_category, tuple_category, literal_category, string_literal_category, integer_literal_category,
  boolean_literal_category, type_category_strings, base_type_strings, from_string, MetaType, base,
  reference, array_of, map_of, all_of, one_of, tuple_of, literal, string_literal, integer_literal,
  boolean_literal, MetaTypes, no_types, a_type, Properties, no_properties, property, stable_sort,
  merge_all, push_literals,
}

abbrev pub found : {A : Type 0} → Option A → Outcome ⊥ A
found none = terminate
found (some a) = ok a

abbrev pub sort_out : MetaType → MetaTypes × List Properties → MetaTypes × List Properties
sort_out (literal ps) (ts, pss) = (ts, ps ∷ pss)
sort_out t (ts, pss) = (a_type t ts, pss)

module _ {D : Type 0} where
  -- `json.get(key).value()` with what is made of it.
  abbrev pub text_member : Bytes → Fields D → Outcome ⊥ Bytes
  text_member key fs = do v ← value_of (get key fs); value_of (as_string v)

  abbrev pub object_member : Bytes → Fields D → Outcome ⊥ (Fields D)
  object_member key fs = do v ← value_of (get key fs); value_of (as_object v)

  abbrev pub array_member : Bytes → Fields D → Outcome ⊥ (Items D)
  array_member key fs = do v ← value_of (get key fs); value_of (as_array v)

  abbrev pub boolean_member : Bytes → Fields D → Outcome ⊥ Bool
  boolean_member key fs = do v ← value_of (get key fs); value_of (as_boolean v)

  unfoldable pub extract_documentation : Fields D → Outcome ⊥ Bytes
  extract_documentation fs =
      if contains (codes "documentation") fs then text_member (codes "documentation") fs else ok []

  unfoldable pub extract_optional : Fields D → Outcome ⊥ Bool
  extract_optional fs =
      if contains (codes "optional") fs then boolean_member (codes "optional") fs else ok false

  -- The loops of `AndType::extract` and `TupleType::extract`, and of `Structure::extract`.
  unfoldable pub create_types : (Fields D → Outcome ⊥ MetaType) → Items D → Outcome ⊥ MetaTypes
  create_types create nil = ok no_types
  create_types create (cons v vs) = do
    fs ← value_of (as_object v)
    t ← create fs
    ts ← create_types create vs
    ok (a_type t ts)

  -- `StructureProperty::extract` on each element.
  unfoldable pub extract_properties :
      (Fields D → Outcome ⊥ MetaType) → Items D → Outcome ⊥ Properties
  extract_properties create nil = ok no_properties
  extract_properties create (cons v vs) = do
    fs ← value_of (as_object v)
    name ← text_member (codes "name") fs
    type_json ← object_member (codes "type") fs
    t ← create type_json
    optional ← extract_optional fs
    documentation ← extract_documentation fs
    ps ← extract_properties create vs
    ok (property name t optional documentation ps)

  -- `extractStructureProperties`.
  unfoldable pub extract_structure_properties :
      (Fields D → Outcome ⊥ MetaType) → Items D → Outcome ⊥ Properties
  extract_structure_properties create items = do
    ps ← extract_properties create items
    ok (stable_sort ps)

  -- The first loop of `OrType::extract`: the structure literals apart from the other types.
  unfoldable pub create_alternatives :
      (Fields D → Outcome ⊥ MetaType) → Items D → Outcome ⊥ (MetaTypes × List Properties)
  create_alternatives create nil = ok (no_types, [])
  create_alternatives create (cons v vs) = do
    fs ← value_of (as_object v)
    t ← create fs
    rest ← create_alternatives create vs
    ok (sort_out t rest)

module _ (F : Floats) where
  open F use {Double}

  abbrev pub extract_string_literal : Fields Double → Outcome ⊥ MetaType
  extract_string_literal fs = do s ← text_member (codes "value") fs; ok (string_literal s)

  abbrev pub extract_integer_literal : Fields Double → Outcome ⊥ MetaType
  extract_integer_literal fs = do
    v ← value_of (get (codes "value") fs)
    n ← value_of (as_integer F v)
    ok (integer_literal n)

  abbrev pub extract_boolean_literal : Fields Double → Outcome ⊥ MetaType
  extract_boolean_literal fs = do b ← boolean_member (codes "value") fs; ok (boolean_literal b)

  -- `extract` of the class of a category. An `or` of nothing is an error that `createFromJson` drops.
  unfoldable pub extract_type :
      (Fields Double → Outcome ⊥ MetaType) → Category → Fields Double → Outcome ⊥ MetaType
  extract_type create base_category fs = do
    name ← text_member (codes "name") fs
    kind ← found (from_string base_type_strings name)
    ok (base kind)
  extract_type create reference_category fs = do
    name ← text_member (codes "name") fs
    ok (reference name)
  extract_type create array_category fs = do
    element ← object_member (codes "element") fs
    t ← create element
    ok (array_of t)
  extract_type create map_category fs = do
    key ← object_member (codes "key") fs
    k ← create key
    value ← object_member (codes "value") fs
    v ← create value
    ok (map_of k v)
  extract_type create and_category fs = do
    items ← array_member (codes "items") fs
    ts ← create_types create items
    ok (all_of ts)
  extract_type create or_category fs = do
    items ← array_member (codes "items") fs
    parts ← create_alternatives create items
    ok (one_of (push_literals parts.0 (merge_all parts.1)))
  extract_type create tuple_category fs = do
    items ← array_member (codes "items") fs
    ts ← create_types create items
    ok (tuple_of ts)
  extract_type create literal_category fs = do
    value ← object_member (codes "value") fs
    items ← array_member (codes "properties") value
    ps ← extract_structure_properties create items
    ok (literal ps)
  extract_type create string_literal_category fs = extract_string_literal fs
  extract_type create integer_literal_category fs = extract_integer_literal fs
  extract_type create boolean_literal_category fs = extract_boolean_literal fs

  -- `createFromJson` on JSON of some depth of types.
  unfoldable pub create_within : ℕ → Fields Double → Outcome ⊥ MetaType
  create_within zero fs = out_of_fuel
  create_within (suc depth) fs = do
    kind ← text_member (codes "kind") fs
    category ← found (from_string type_category_strings kind)
    extract_type (create_within depth) category fs

unfoldable mutual
  -- The number of values in JSON.
  pub weight : {D : Type 0} → Value D → ℕ
  weight (Value.array xs) = suc (items_weight xs)
  weight (Value.object fs) = suc (fields_weight fs)
  weight _ = 1

  pub items_weight : {D : Type 0} → Items D → ℕ
  items_weight nil = 0
  items_weight (cons v vs) = weight v + items_weight vs

  pub fields_weight : {D : Type 0} → Fields D → ℕ
  fields_weight end = 0
  fields_weight (field k v fs) = weight v + fields_weight fs

-- `Type::createFromJson`: types are nested no deeper than there are values.
unfoldable pub create_from_json : (F : Floats) → Fields F.Double → Outcome ⊥ MetaType
create_from_json F fs = create_within F (suc (fields_weight fs)) fs
