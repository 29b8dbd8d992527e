-- ===== src/Generator/Enumerations.antt =====
-- `CppGenerator::generate` of an enumeration: what is added to types.h and to types.cpp.
use lsp_framework_noec.Base.{
  List, [], ◌∷◌, ◌++◌, Bytes, codes, Option, none, some, ok, ◌>>=◌, false,
}
use lsp_framework_noec.Json.Floats.{Floats}
use lsp_framework_noec.Json.Printer.{stringify}
use lsp_framework_noec.MetaModel.Types.{
  BaseKind, boolean_kind, string_kind, integer_kind, uinteger_kind, decimal_kind, uri_kind,
  document_uri_kind, reg_exp_kind, null_kind, MetaType, base,
}
use lsp_framework_noec.MetaModel.Model.{EnumValue, EnumerationType, capitalize_string}
use lsp_framework_noec.Generator.Text.{Call, upper_case_identifier, documentation_comment}

-- `s_baseTypeMapping`.
abbrev pub base_type_name : BaseKind → Bytes
base_type_name boolean_kind = codes "bool"
base_type_name string_kind = codes "String"
base_type_name integer_kind = codes "int"
base_type_name uinteger_kind = codes "uint"
base_type_name decimal_kind = codes "double"
base_type_name uri_kind = codes "Uri"
base_type_name document_uri_kind = codes "DocumentUri"
base_type_name reg_exp_kind = codes "String"
base_type_name null_kind = codes "Null"

module _ (F : Floats) where
  open F use {Double}

  abbrev pub enumerator : EnumValue Double → Call (Bytes × Bytes)
  enumerator value = do
    comment ← documentation_comment [] value.documentation 1
    ok (
      comment ++ (codes "\t" ++ capitalize_string value.name),
      codes "\t" ++ stringify F value.value false,
    )

  -- The loop behind the first value.
  unfoldable pub more_enumerators : List (EnumValue Double) → Call (Bytes × Bytes)
  more_enumerators [] = ok ([], [])
  more_enumerators (value ∷ values) = do
    (header, source) ← enumerator value
    (headers, sources) ← more_enumerators values
    ok (codes ",\n" ++ (header ++ headers), codes ",\n" ++ (source ++ sources))

  unfoldable pub enumerators : List (EnumValue Double) → Call (Bytes × Bytes)
  enumerators [] = ok ([], [])
  enumerators (value ∷ values) = do
    (header, source) ← enumerator value
    (headers, sources) ← more_enumerators values
    ok (header ++ headers, source ++ sources)

  unfoldable pub generate_base_enumeration :
      EnumerationType Double → BaseKind → Call (Bytes × Bytes)
  generate_base_enumeration enumeration kind = do
    cpp_name ← upper_case_identifier enumeration.name
    comment ← documentation_comment cpp_name enumeration.documentation 0
    (headers, sources) ← enumerators enumeration.values
    let enum_name : Bytes = cpp_name ++ codes "Enum"
    let init_type : Bytes =
        enum_name ++ (codes "::ConstInitType " ++ (enum_name ++ codes "::s_values[]"))
    ok (
      comment
          ++ (codes "enum class "
              ++ (cpp_name
                  ++ (codes "{\n"
                      ++ (headers
                          ++ (codes ",\n\tMAX_VALUE\n};\nusing "
                              ++ (cpp_name
                                  ++ (codes "Enum = Enumeration<"
                                      ++ (cpp_name
                                          ++ (codes ", "
                                              ++ (base_type_name kind
                                                  ++ (codes ">;\ntemplate<>\nconst "
                                                      ++ (init_type ++ codes ";\n\n")))))))))))),
      codes "template<>\nconst "
          ++ (init_type ++ (codes " = {\n" ++ (sources ++ codes "\n};\n\n"))),
    )

  -- The text for types.h and for types.cpp, or none for the error that the type of the values is no
  -- base type. `generateNamedType` drops the error.
  unfoldable pub generate_enumeration : EnumerationType Double → Call (Option (Bytes × Bytes))
  generate_enumeration enumeration = of_type enumeration.type
    where
      of_type : MetaType → Call (Option (Bytes × Bytes))
      of_type (base kind) = do texts ← generate_base_enumeration enumeration kind; ok (some texts)
      of_type _ = ok none
