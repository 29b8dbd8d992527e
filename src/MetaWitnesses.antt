-- ===== src/MetaWitnesses.antt =====
-- A small meta model, for the theorems on lspgen/lspgen.cpp.
use lsp_framework_noec.Base.{
  refl, ◌∷◌, some, ok, to_upper, bytes_eq, Bytes, [], ◌≡◌, true, false, codes, ℤ,
}
use lsp_framework_noec.Json.Value.{Value, Fields, string, nil, cons, end, field}
use lsp_framework_noec.Json.Parser.Ends.{Ends}
use lsp_framework_noec.Json.Tests.{no_floats}
use lsp_framework_noec.MetaModel.Types.{
  base, boolean_kind, null_kind, from_string, Properties, no_properties, property,
  properties_append, stable_sort,
}
use lsp_framework_noec.MetaModel.Order.{required, optional, stable_sort-required}
use lsp_framework_noec.MetaModel.Model.{
  Model, TypeIndex, type_alias_at, add_type_alias, insert_type, capitalize_string, type_for_name,
}
use lsp_framework_noec.MetaModel.Reading.{add_member_alias, extract_types}
use lsp_framework_noec.MetaModel.Messages.{member_type_name}
use lsp_framework_noec.MetaModel.Aliases.{member_type_name-type_for_name}
use lsp_framework_noec.MetaModel.Extract.{
  object_member, text_member, create_from_json, create_within, extract_type, extract_documentation,
  fields_weight,
}
use lsp_framework_noec.Json.Object.{contains, get, find}
use lsp_framework_noec.MetaModel.Whole.{LeadsToNames, extract_types-LeadsToNames}

abbrev two_properties : Properties
two_properties =
    property (codes "a") (base boolean_kind) true []
      (property (codes "b") (base null_kind) false [] no_properties)

stable_sort-required_example :
    stable_sort two_properties
    ≡ properties_append (required two_properties) (optional two_properties)
stable_sort-required_example = stable_sort-required two_properties

abbrev a_structure : Fields ℤ
a_structure =
    field (codes "name") (string (codes "A")) (field (codes "properties") (Value.array nil) end)

abbrev meta_json : Fields ℤ
meta_json =
    field (codes "metaData") (Value.object (field (codes "version") (string (codes "3")) end)) (
      field (codes "enumerations") (Value.array nil) (
        field (codes "structures") (Value.array (cons (Value.object a_structure) nil)) (
          field (codes "typeAliases") (Value.array nil) (
            field (codes "requests") (Value.array nil)
              (field (codes "notifications") (Value.array nil) end)))))

extract_types-LeadsToNames_example : Ends LeadsToNames (extract_types no_floats meta_json)
extract_types-LeadsToNames_example = extract_types-LeadsToNames no_floats meta_json

abbrev null_type : Fields ℤ
null_type =
    field (codes "kind") (string (codes "base")) (field (codes "name") (string (codes "null")) end)

abbrev a_request : Fields ℤ
a_request =
    field (codes "method") (string (codes "m"))
      (field (codes "params") (Value.object null_type) end)

abbrev no_model : Model ℤ
no_model = record {
  version = [];
  type_names = [];
  types_by_name = [];
  enumerations = [];
  structures = [];
  type_aliases = [];
}

abbrev one_alias : Model ℤ
one_alias = record no_model {
  type_names = codes "mParams" ∷ [];
  types_by_name = (codes "mParams", type_alias_at 0) ∷ [];
  type_aliases = record { name = codes "mParams"; type = base null_kind; documentation = [] } ∷ [];
}

params_here : contains (codes "params") a_request ≡ true
unfolding contains bytes_eq
params_here = refl

params_typed : object_member (codes "params") a_request ≡ ok null_type
unfolding get find bytes_eq
params_typed = refl

params_kind : text_member (codes "kind") null_type ≡ ok (codes "base")
unfolding get find bytes_eq
params_kind = refl

not_reference : bytes_eq (codes "base") (codes "reference") ≡ false
unfolding bytes_eq
not_reference = refl

request_method : text_member (codes "method") a_request ≡ ok (codes "m")
unfolding get find bytes_eq
request_method = refl

params_added :
    add_member_alias no_floats a_request (codes "params") (codes "m") no_model ≡ ok one_alias
unfolding add_member_alias contains get find bytes_eq create_from_json create_within extract_type
    from_string extract_documentation add_type_alias insert_type capitalize_string to_upper
    fields_weight
params_added = refl

member_type_name-type_for_name_example :
    (name : Bytes) × (member_type_name a_request (codes "params") ≡ ok name)
    × ((i : TypeIndex) × (type_for_name name one_alias ≡ some i))
member_type_name-type_for_name_example =
    member_type_name-type_for_name no_floats a_request null_type (codes "params") (codes "m")
      (codes "base") no_model one_alias params_here params_typed params_kind not_reference
      request_method params_added
