-- ===== src/SerialWitnesses.antt =====
-- Values of nested types, for the theorems on lsp/serialization.h.
use lsp_framework_noec.Base.{
  int_eq, true, ◌↔◌, bytes_eq, ℕ, ◌-◌, ◌^◌, ◌≡◌, refl, [], ◌∷◌, List, Bytes, codes, pos, negsuc, ok,
  arith, ℤ, bytes_key, ◌⊎◌, inr,
}
use lsp_framework_noec.Json.Value.{Value, integer, field, end}
use lsp_framework_noec.Json.Tests.{no_floats}
use lsp_framework_noec.Serialization.Serial.{Serial, ComesBack}
use lsp_framework_noec.Serialization.Numbers.{Casts, to_json_long, from_json_number, serial_int}
use lsp_framework_noec.Serialization.Scalars.{serial_string}
use lsp_framework_noec.Serialization.Tables.{
  string_texts, Apart, serial_table, serial_table-ComesBack,
}
use lsp_framework_noec.Serialization.Choices.{
  Alternatives, one, either, last, later, serial_variant, serial_variant-ComesBack,
}
use lsp_framework_noec.Serialization.Enumeration.{
  Enumeration, enumeration_value, serial_enumeration, enumeration_from_json-enumeration_value,
}
use lsp_framework_noec.Serialization.Structures.{
  Traits, can_deserialize_structure, has_literal_properties, has_required_properties, Recognised,
  can_deserialize_structure-Recognised,
}
use lsp_framework_noec.Json.Equality.{value_eq}
use lsp_framework_noec.Json.Object.{contains, find}
use lsp_framework_noec.Serialization.RoundTrips.{serial_string-ComesBack, serial_long_below}

abbrev strings : Serial ℤ Bytes
strings = serial_string

abbrev integers : Serial ℤ ℤ
integers = serial_int no_floats

abbrev to_nat : ℤ → ℕ
to_nat (pos n) = n
to_nat (negsuc n) = 0

abbrev casts : Casts no_floats
casts = record {
  to_unsigned = to_nat;
  to_long = λ n. n;
  to_unsigned_long = to_nat;
  to_unsigned-of_int = λ n h. refl;
  to_long-of_int = λ n h. refl;
  to_unsigned_long-of_int = λ n h. refl;
}

serial_table_example :
    ComesBack (serial_table string_texts strings) ((codes "k", codes "v") ∷ (codes "l", []) ∷ [])
unfolding Apart
serial_table_example =
    serial_table-ComesBack string_texts strings ((codes "k", codes "v") ∷ (codes "l", []) ∷ [])
      (tt, ((ground arith, tt), tt))
      ((refl, serial_string-ComesBack (codes "v")), ((refl, serial_string-ComesBack []), tt))

abbrev number_or_text : Alternatives ℤ (ℤ ⊎ Bytes)
number_or_text = either integers (one strings)

serial_variant_example : ComesBack (serial_variant number_or_text) (inr (codes "a"))
unfolding serial_string serial_int one
serial_variant_example = serial_variant-ComesBack number_or_text (inr (codes "a")) (
    later integers (one strings) (codes "a") refl
      (last strings (codes "a") (serial_string-ComesBack (codes "a"))))

abbrev kinds : List Bytes
kinds = codes "quickfix" ∷ codes "refactor" ∷ []

abbrev refactor : Enumeration Bytes
refactor = record { index = 1; custom_value = [] }

enumeration_example :
    (f : Enumeration Bytes) × ((serial_enumeration kinds strings).from_json
        ((serial_enumeration kinds strings).to_json refactor)
        refactor
      ≡ ok f)
    × (enumeration_value kinds strings f ≡ enumeration_value kinds strings refactor)
enumeration_example =
    enumeration_from_json-enumeration_value kinds strings refactor refactor
      (serial_string-ComesBack (enumeration_value kinds strings refactor))

serial_long_below_example :
    (to_json_long no_floats (negsuc (2 ^ 31)) ≡ integer (pos (2 ^ 32 - 1 - 2 ^ 31)))
    × (from_json_number no_floats casts.to_long (to_json_long no_floats (negsuc (2 ^ 31))) (pos 0)
        ≡ ok (pos (2 ^ 32 - 1 - 2 ^ 31)))
serial_long_below_example =
    serial_long_below no_floats casts (2 ^ 31) (pos 0) (omega arith) (omega arith)

-- A file operation, told from others by the literal of its kind.
abbrev create_file : Traits ℤ
create_file = record {
  literals = (codes "kind", Value.string (codes "create")) ∷ [];
  required = codes "kind" ∷ codes "uri" ∷ [];
}

abbrev created : Value ℤ
created = Value.object (
    field (codes "kind") (Value.string (codes "create"))
      (field (codes "uri") (Value.string (codes "a")) end))

structure_example :
    (can_deserialize_structure int_eq create_file created ≡ true)
    ↔ Recognised int_eq create_file created
structure_example = can_deserialize_structure-Recognised int_eq create_file created

structure_runs : can_deserialize_structure int_eq create_file created ≡ true
unfolding can_deserialize_structure has_literal_properties has_required_properties value_eq contains
    bytes_eq find
structure_runs = refl
