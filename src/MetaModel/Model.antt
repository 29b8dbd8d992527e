-- ===== src/MetaModel/Model.antt =====
-- The class `MetaModel` of lspgen/lspgen.cpp, with `Enumeration`, `Structure`, `TypeAlias` and
-- `Message`.
use lsp_framework_noec.Base.{
  ℕ, Bool, List, [], ◌∷◌, ◌++◌, Option, none, some, Bytes, bytes_key, lookup, get_elem?, length,
  Outcome, ok, ◌>>=◌, to_upper,
}
use lsp_framework_noec.Json.Value.{Value, Items, nil, cons, Fields}
use lsp_framework_noec.Jsonrpc.{as_object}
use lsp_framework_noec.Serialization.Serial.{value_of}
use lsp_framework_noec.MetaModel.Types.{MetaType, MetaTypes, Properties}

unfoldable pub capitalize_string : Bytes → Bytes
capitalize_string [] = []
capitalize_string (c ∷ s) = to_upper c ∷ s

pub record EnumValue (D : Type 0) : Type 0 where
  pub name : Bytes
  pub value : Value D
  pub documentation : Bytes

pub record EnumerationType (D : Type 0) : Type 0 where
  pub name : Bytes
  pub type : MetaType
  pub values : List (EnumValue D)
  pub documentation : Bytes
  pub supports_custom_values : Bool

pub record Structure : Type 0 where
  pub name : Bytes
  pub properties : Properties
  pub extends : MetaTypes
  pub mixins : MetaTypes
  pub documentation : Bytes

pub record TypeAlias : Type 0 where
  pub name : Bytes
  pub type : MetaType
  pub documentation : Bytes

-- `MetaModel::Type` with its index, `TypeIndex`.
pub data TypeIndex : Type 0 where
  enumeration_at structure_at type_alias_at : ℕ → TypeIndex

pub record Model (D : Type 0) : Type 0 where
  pub version : Bytes
  pub type_names : List Bytes
  pub types_by_name : List (Bytes × TypeIndex)
  pub enumerations : List (EnumerationType D)
  pub structures : List Structure
  pub type_aliases : List TypeAlias

abbrev pub name_of : {A : Type 0} → (A → Bytes) → Option A → Option Bytes
name_of name none = none
name_of name (some a) = some (name a)

module _ {D : Type 0} where
  -- `insertType`: a second type of a name is not inserted, and no caller takes notice.
  abbrev pub insert_new : Option TypeIndex → Bytes → TypeIndex → Model D → Model D
  insert_new (some other) name index m = m
  insert_new none name index m = record m {
    types_by_name = m.types_by_name ++ (name, index) ∷ [];
    type_names = m.type_names ++ name ∷ [];
  }

  unfoldable pub insert_type : Bytes → TypeIndex → Model D → Model D
  insert_type name index m = insert_new (lookup name m.types_by_name) name index m

  -- One round of each of the loops over the types. The vectors, which have their size beforehand
  -- there, grow here.
  unfoldable pub add_enumeration : EnumerationType D → Model D → Model D
  add_enumeration e m =
      insert_type e.name (enumeration_at (length m.enumerations))
        (record m { enumerations = m.enumerations ++ e ∷ [] })

  unfoldable pub add_structure : Structure → Model D → Model D
  add_structure s m =
      insert_type s.name (structure_at (length m.structures))
        (record m { structures = m.structures ++ s ∷ [] })

  unfoldable pub add_type_alias : TypeAlias → Model D → Model D
  add_type_alias a m =
      insert_type a.name (type_alias_at (length m.type_aliases))
        (record m { type_aliases = m.type_aliases ++ a ∷ [] })

  -- The name of the type at an index.
  unfoldable pub name_at : TypeIndex → Model D → Option Bytes
  name_at (enumeration_at i) m = name_of (λ e. e.name) (get_elem? m.enumerations i)
  name_at (structure_at i) m = name_of (λ s. s.name) (get_elem? m.structures i)
  name_at (type_alias_at i) m = name_of (λ a. a.name) (get_elem? m.type_aliases i)

  -- `typeForName`; an error where there is no type of the name.
  unfoldable pub type_for_name : Bytes → Model D → Option TypeIndex
  type_for_name name m = lookup name m.types_by_name

  -- A loop over an array of objects that adds each to the model.
  unfoldable pub for_each :
      (Fields D → Model D → Outcome ⊥ (Model D)) → Items D → Model D → Outcome ⊥ (Model D)
  for_each add nil m = ok m
  for_each add (cons v vs) m = do fs ← value_of (as_object v); n ← add fs m; for_each add vs n
