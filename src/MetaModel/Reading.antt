-- ===== src/MetaModel/Reading.antt =====
-- The types of the meta model from its JSON: the functions `extract*` and `addTypeAlias` of
-- lspgen/lspgen.cpp.
use lsp_framework_noec.Base.{
  false, List, [], ◌∷◌, ◌++◌, Bytes, codes, bytes_eq, bytes_key, if◌then◌else◌, Outcome, ok, ◌>>=◌,
}
use lsp_framework_noec.Json.Value.{Items, nil, cons, Fields}
use lsp_framework_noec.Json.Object.{get, contains}
use lsp_framework_noec.Json.Floats.{Floats}
use lsp_framework_noec.Jsonrpc.{as_object}
use lsp_framework_noec.Serialization.Serial.{value_of}
use lsp_framework_noec.MetaModel.Types.{MetaTypes, no_types}
use lsp_framework_noec.MetaModel.Extract.{
  text_member, object_member, array_member, boolean_member, extract_documentation, create_types,
  extract_structure_properties, create_from_json,
}
use lsp_framework_noec.MetaModel.Model.{
  EnumValue, EnumerationType, Model, Structure, TypeAlias, add_enumeration, add_structure,
  add_type_alias, capitalize_string, for_each,
}

-- The members of messages whose types get names.
abbrev pub request_members : List Bytes
request_members =
    codes "result"
    ∷ codes "params"
    ∷ codes "partialResult"
    ∷ codes "errorData"
    ∷ codes "registrationOptions"
    ∷ []

abbrev pub notification_members : List Bytes
notification_members = codes "params" ∷ codes "registrationOptions" ∷ []

module _ (F : Floats) where
  open F use {Double}

  unfoldable pub extract_enum_values : Items Double → Outcome ⊥ (List (EnumValue Double))
  extract_enum_values nil = ok []
  extract_enum_values (cons v vs) = do
    fs ← value_of (as_object v)
    name ← text_member (codes "name") fs
    value ← value_of (get (codes "value") fs)
    documentation ← extract_documentation fs
    rest ← extract_enum_values vs
    ok (record { name = name; value = value; documentation = documentation } ∷ rest)

  unfoldable pub extract_enumeration : Fields Double → Outcome ⊥ (EnumerationType Double)
  extract_enumeration fs = do
    name ← text_member (codes "name") fs
    type_json ← object_member (codes "type") fs
    type ← create_from_json F type_json
    items ← array_member (codes "values") fs
    values ← extract_enum_values items
    documentation ← extract_documentation fs
    custom ←
        if contains (codes "supportsCustomValues") fs
        then boolean_member (codes "supportsCustomValues") fs
        else ok false
    ok (record {
      name = name;
      type = type;
      values = values;
      documentation = documentation;
      supports_custom_values = custom;
    })

  -- `extends` and `mixins`.
  abbrev pub extract_parents : Bytes → Fields Double → Outcome ⊥ MetaTypes
  extract_parents key fs =
      let parents = (do items ← array_member key fs; create_types (create_from_json F) items) in
      if contains key fs then parents else ok no_types

  unfoldable pub extract_structure : Fields Double → Outcome ⊥ Structure
  extract_structure fs = do
    name ← text_member (codes "name") fs
    items ← array_member (codes "properties") fs
    properties ← extract_structure_properties (create_from_json F) items
    extends ← extract_parents (codes "extends") fs
    mixins ← extract_parents (codes "mixins") fs
    documentation ← extract_documentation fs
    ok (record {
      name = name;
      properties = properties;
      extends = extends;
      mixins = mixins;
      documentation = documentation;
    })

  unfoldable pub extract_type_alias : Fields Double → Outcome ⊥ TypeAlias
  extract_type_alias fs = do
    name ← text_member (codes "name") fs
    type_json ← object_member (codes "type") fs
    type ← create_from_json F type_json
    documentation ← extract_documentation fs
    ok (record { name = name; type = type; documentation = documentation })

  abbrev pub member_alias : Fields Double → Bytes → Bytes → Model Double → Outcome ⊥ (Model Double)
  member_alias type_json key type_base_name m = do
    type ← create_from_json F type_json
    documentation ← extract_documentation type_json
    ok (
        add_type_alias
          (record {
            name = type_base_name ++ capitalize_string key;
            type = type;
            documentation = documentation;
          })
          m)

  -- `addTypeAlias`: the type of a member of a message gets a name, if it is no reference.
  unfoldable pub add_member_alias :
      Fields Double → Bytes → Bytes → Model Double → Outcome ⊥ (Model Double)
  add_member_alias fs key type_base_name m =
      let member = (do
        type_json ← object_member key fs
        kind ← text_member (codes "kind") type_json
        if bytes_eq kind (codes "reference")
            then ok m
            else member_alias type_json key type_base_name m) in
      if contains key fs then member else ok m

  abbrev pub add_aliases :
      List Bytes → Fields Double → Bytes → Model Double → Outcome ⊥ (Model Double)
  add_aliases [] fs type_base_name m = ok m
  add_aliases (key ∷ keys) fs type_base_name m = do
    n ← add_member_alias fs key type_base_name m
    add_aliases keys fs type_base_name n

  -- One round of the loops of `extractTypeAliases` over the requests and the notifications.
  unfoldable pub add_request_aliases : Fields Double → Model Double → Outcome ⊥ (Model Double)
  add_request_aliases fs m = do
    method ← text_member (codes "method") fs
    add_aliases request_members fs method m

  unfoldable pub add_notification_aliases : Fields Double → Model Double → Outcome ⊥ (Model Double)
  add_notification_aliases fs m = do
    method ← text_member (codes "method") fs
    add_aliases notification_members fs method m

  unfoldable pub extract_enumerations : Fields Double → Model Double → Outcome ⊥ (Model Double)
  extract_enumerations json m = do
    items ← array_member (codes "enumerations") json
    for_each (λ fs n. do e ← extract_enumeration fs; ok (add_enumeration e n)) items m

  unfoldable pub extract_structures : Fields Double → Model Double → Outcome ⊥ (Model Double)
  extract_structures json m = do
    items ← array_member (codes "structures") json
    for_each (λ fs n. do s ← extract_structure fs; ok (add_structure s n)) items m

  unfoldable pub extract_type_aliases : Fields Double → Model Double → Outcome ⊥ (Model Double)
  extract_type_aliases json m = do
    aliases ← array_member (codes "typeAliases") json
    m1 ← for_each (λ fs n. do a ← extract_type_alias fs; ok (add_type_alias a n)) aliases m
    requests ← array_member (codes "requests") json
    m2 ← for_each add_request_aliases requests m1
    notifications ← array_member (codes "notifications") json
    for_each add_notification_aliases notifications m2

  unfoldable pub extract_meta_data : Fields Double → Outcome ⊥ (Model Double)
  extract_meta_data json = do
    meta_data ← object_member (codes "metaData") json
    version ← text_member (codes "version") meta_data
    ok (record {
      version = version;
      type_names = [];
      types_by_name = [];
      enumerations = [];
      structures = [];
      type_aliases = [];
    })

  -- `extractMetaData` and `extractTypes` on a new `MetaModel`.
  unfoldable pub extract_types : Fields Double → Outcome ⊥ (Model Double)
  extract_types json = do
    m0 ← extract_meta_data json
    m1 ← extract_enumerations json m0
    m2 ← extract_structures json m1
    extract_type_aliases json m2
