-- ===== src/Json/Printer.antt =====
-- `stringify` and `stringifyImplementation` of lsp/json/json.cpp. The text that a call appends to
-- `str` is its result here.
pub mod Decimal
pub mod Text
use Prim.Native.Nat.{min}
use lsp_framework_noec.Base.{
  ℕ, suc, ◌+◌, Bool, true, false, [], ◌∷◌, ◌++◌, Bytes, codes, replicate, if◌then◌else◌,
  to_string_int,
}
use lsp_framework_noec.Json.Value.{
  Value, Items, Fields, null, boolean, integer, decimal, string, nil, cons, end, field,
}
use lsp_framework_noec.Json.Floats.{Floats}
use lsp_framework_noec.Json.Literal.{to_string_literal}
use lsp_framework_noec.Json.Printer.Decimal.{decimal_text}

-- `getIndent()`.
unfoldable pub indent : Bool → ℕ → Bytes
indent format level = if format then replicate (min level 32) 9 else []

abbrev pub key_sep : Bool → Bytes
key_sep format = if format then b':' ∷ b' ' ∷ [] else b':' ∷ []

-- `valueSep`, behind its comma.
abbrev pub line_end : Bool → Bytes
line_end format = if format then b'\n' ∷ [] else []

-- `valueSep` and the indent of the next element.
unfoldable pub separator : Bool → ℕ → Bytes
separator format level = b',' ∷ (line_end format ++ indent format level)

-- `listStart` or `listEnd`, and the indent behind it.
unfoldable pub new_line : Bool → ℕ → Bytes
new_line format level = line_end format ++ indent format level

module _ (F : Floats) (format : Bool) where
  open F use {Double}

  unfoldable mutual
    pub emit : ℕ → Value Double → Bytes
    emit level null = codes "null"
    emit level (boolean true) = codes "true"
    emit level (boolean false) = codes "false"
    emit level (integer n) = to_string_int n
    emit level (decimal d) = decimal_text F d
    emit level (string s) = to_string_literal s
    emit level (Value.object fs) = b'{' ∷ emit_object level fs
    emit level (Value.array xs) = b'[' ∷ emit_array level xs

    -- Behind the opening bracket.
    pub emit_array : ℕ → Items Double → Bytes
    emit_array level nil = b']' ∷ []
    emit_array level (cons x xs) =
        new_line format (level + 1)
        ++ (emit (level + 1) x
            ++ (emit_items (level + 1) xs ++ (new_line format level ++ b']' ∷ [])))

    pub emit_object : ℕ → Fields Double → Bytes
    emit_object level end = b'}' ∷ []
    emit_object level (field k v fs) =
        new_line format (level + 1)
        ++ (to_string_literal k
            ++ (key_sep format
                ++ (emit (level + 1) v
                    ++ (emit_fields (level + 1) fs ++ (new_line format level ++ b'}' ∷ [])))))

    -- The loop over the elements behind the first.
    pub emit_items : ℕ → Items Double → Bytes
    emit_items level nil = []
    emit_items level (cons x xs) = separator format level ++ (emit level x ++ emit_items level xs)

    pub emit_fields : ℕ → Fields Double → Bytes
    emit_fields level end = []
    emit_fields level (field k v fs) =
        separator format level
        ++ (to_string_literal k ++ (key_sep format ++ (emit level v ++ emit_fields level fs)))

-- `stringify(json, format)`.
unfoldable pub stringify : (F : Floats) → Value F.Double → Bool → Bytes
stringify F json format = emit F format 0 json
