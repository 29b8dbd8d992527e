-- ===== src/Serialization/Scalars.antt =====
-- Null, Booleans, strings, URIs and JSON values.
use lsp_framework_noec.Base.{Bool, true, false, [], Bytes, Outcome, ok, unexpected}
use lsp_framework_noec.Json.Value.{
  Value, null, boolean, string, end, is_null, is_string, is_object, Fields, Items,
}
use lsp_framework_noec.Json.Object.{TypeError, unexpected_value}
use lsp_framework_noec.Jsonrpc.{as_string, as_object}
use lsp_framework_noec.Uri.Record
use lsp_framework_noec.Uri.Record.{Uri, empty_uri}
use lsp_framework_noec.Uri.Parse
use lsp_framework_noec.FileUri.{from_uri, file_uri}
use lsp_framework_noec.Serialization.Serial.{Serial, value_of, map_ok}

module _ {D : Type 0} where
  abbrev pub is_boolean : Value D → Bool
  is_boolean (boolean b) = true
  is_boolean _ = false

  abbrev pub as_boolean : Value D → Outcome TypeError Bool
  as_boolean (boolean b) = ok b
  as_boolean _ = unexpected unexpected_value

  abbrev pub as_array : Value D → Outcome TypeError (Items D)
  as_array (Value.array xs) = ok xs
  as_array _ = unexpected unexpected_value

  -- `std::nullptr_t`: `fromJson` does nothing.
  unfoldable pub serial_null : Serial D (Unit {0})
  serial_null = record {
    default = tt;
    to_json = λ u. null;
    from_json = λ json old. ok old;
    can_deserialize = is_null;
  }

  unfoldable pub serial_bool : Serial D Bool
  serial_bool = record {
    default = false;
    to_json = boolean;
    from_json = λ json old. value_of (as_boolean json);
    can_deserialize = is_boolean;
  }

  unfoldable pub serial_string : Serial D Bytes
  serial_string = record {
    default = [];
    to_json = string;
    from_json = λ json old. value_of (as_string json);
    can_deserialize = is_string;
  }

  -- `canDeserializeTypeFromJson` of a type that it does not know, with no literal and no required
  -- properties: any object will do.
  unfoldable pub serial_uri : Serial D Uri
  serial_uri = record {
    default = empty_uri;
    to_json = λ u. string (Record.to_string u);
    from_json = λ json old. map_ok Parse.parse (value_of (as_string json));
    can_deserialize = is_object;
  }

  unfoldable pub serial_file_uri : Serial D Uri
  serial_file_uri = record {
    default = file_uri;
    to_json = λ u. string (Record.to_string u);
    from_json = λ json old. map_ok (λ s. from_uri (Parse.parse s)) (value_of (as_string json));
    can_deserialize = is_object;
  }

  unfoldable pub serial_object : Serial D (Fields D)
  serial_object = record {
    default = end;
    to_json = Value.object;
    from_json = λ json old. value_of (as_object json);
    can_deserialize = is_object;
  }
