-- ===== src/MetaModel/Types.antt =====
-- `Type` of lspgen/lspgen.cpp and its subclasses.
use lsp_framework_noec.Base.{
  Bool, true, false, ◌&&◌, ◌||◌, not, List, [], ◌∷◌, Option, none, some, Bytes, codes, bytes_eq, ℤ,
  if◌then◌else◌,
}

-- `Type::Category`.
pub data Category : Type 0 where
  base_category reference_category array_category map_category and_category or_category
        tuple_category literal_category string_literal_category integer_literal_category
        boolean_literal_category :
      Category

-- `BaseType::Kind`.
pub data BaseKind : Type 0 where
  boolean_kind string_kind integer_kind uinteger_kind decimal_kind uri_kind document_uri_kind
        reg_exp_kind null_kind :
      BaseKind

-- `TypeCategoryStrings`, with the categories that the indices stand for.
abbrev pub type_category_strings : List (Bytes × Category)
type_category_strings =
    (codes "base", base_category)
    ∷ (codes "reference", reference_category)
    ∷ (codes "array", array_category)
    ∷ (codes "map", map_category)
    ∷ (codes "and", and_category)
    ∷ (codes "or", or_category)
    ∷ (codes "tuple", tuple_category)
    ∷ (codes "literal", literal_category)
    ∷ (codes "stringLiteral", string_literal_category)
    ∷ (codes "integerLiteral", integer_literal_category)
    ∷ (codes "booleanLiteral", boolean_literal_category)
    ∷ []

-- `BaseTypeStrings`.
abbrev pub base_type_strings : List (Bytes × BaseKind)
base_type_strings =
    (codes "boolean", boolean_kind)
    ∷ (codes "string", string_kind)
    ∷ (codes "integer", integer_kind)
    ∷ (codes "uinteger", uinteger_kind)
    ∷ (codes "decimal", decimal_kind)
    ∷ (codes "URI", uri_kind)
    ∷ (codes "DocumentUri", document_uri_kind)
    ∷ (codes "RegExp", reg_exp_kind)
    ∷ (codes "null", null_kind)
    ∷ []

-- The loops of `categoryFromString` and `kindFromString`.
unfoldable pub from_string : {A : Type 0} → List (Bytes × A) → Bytes → Option A
from_string [] text = none
from_string ((s, a) ∷ table) text = if bytes_eq s text then some a else from_string table text

mutual
  pub data MetaType : Type 0 where
    base : BaseKind → MetaType
    reference : Bytes → MetaType
    array_of : MetaType → MetaType
    map_of : MetaType → MetaType → MetaType
    all_of one_of tuple_of : MetaTypes → MetaType
    literal : Properties → MetaType
    string_literal : Bytes → MetaType
    integer_literal : ℤ → MetaType
    boolean_literal : Bool → MetaType

  -- `std::vector<TypePtr>`.
  pub data MetaTypes : Type 0 where
    no_types : MetaTypes
    a_type : MetaType → MetaTypes → MetaTypes

  -- `StructurePropertyList`: of each `StructureProperty` its name, its type, `isOptional` and its
  -- documentation.
  pub data Properties : Type 0 where
    no_properties : Properties
    property : Bytes → MetaType → Bool → Bytes → Properties → Properties

-- `push_back`.
unfoldable pub push_type : MetaTypes → MetaType → MetaTypes
push_type no_types t = a_type t no_types
push_type (a_type u ts) t = a_type u (push_type ts t)

abbrev pub properties_append : Properties → Properties → Properties
properties_append no_properties qs = qs
properties_append (property n t o d ps) qs = property n t o d (properties_append ps qs)

-- The comparison of `std::stable_sort`.
abbrev pub comes_first : Bool → Bool → Bool
comes_first optional1 optional2 = not optional1 && optional2

-- A property before the sorted ones behind it: it stays in front of those that do not come first.
unfoldable pub insert_property : Bytes → MetaType → Bool → Bytes → Properties → Properties
insert_property n t o d no_properties = property n t o d no_properties
insert_property n t o d (property m u p e ps) =
    if comes_first p o
    then property m u p e (insert_property n t o d ps)
    else property n t o d (property m u p e ps)

-- `std::stable_sort`, as an insertion sort.
unfoldable pub stable_sort : Properties → Properties
stable_sort no_properties = no_properties
stable_sort (property n t o d ps) = insert_property n t o d (stable_sort ps)

-- Whether the lists have the same names in the same order, and so the same length.
unfoldable pub same_names : Properties → Properties → Bool
same_names no_properties no_properties = true
same_names (property n t o d ps) (property m u p e qs) = bytes_eq n m && same_names ps qs
same_names _ _ = false

-- `first.properties[p].isOptional |= second.properties[p].isOptional`.
unfoldable pub merge_optional : Properties → Properties → Properties
merge_optional (property n t o d ps) (property m u p e qs) =
    property n t (o || p) d (merge_optional ps qs)
merge_optional ps _ = ps

-- The loop of `OrType::extract` over the literals behind `first`.
unfoldable pub merge_literals : Properties → List Properties → List Properties
merge_literals first [] = first ∷ []
merge_literals first (second ∷ rest) =
    let merged = merge_literals (merge_optional first second) rest in
    let kept = merge_literals second rest in
    if same_names first second then merged else first ∷ kept

abbrev pub merge_all : List Properties → List Properties
merge_all [] = []
merge_all (first ∷ rest) = merge_literals first rest

abbrev pub push_literals : MetaTypes → List Properties → MetaTypes
push_literals ts [] = ts
push_literals ts (ps ∷ pss) = push_literals (push_type ts (literal ps)) pss
