-- ===== src/Json/Cursor.antt =====
-- The input of the class `Parser` in lsp/json/json.cpp, and its errors. `m_pos` is the text from it
-- to `m_end`; an offset is the text's size less what is left.
use lsp_framework_noec.Base.{
  ℕ, ◌-◌, Bool, true, false, [], ◌∷◌, Bytes, codes, ◌++◌, length, if◌then◌else◌, is_space, Outcome,
  unexpected,
}

-- What a `json::ParseError` says; the text that a message quotes is an argument.
pub data Complaint : Type 0 where
  unexpected_end trailing_characters expected_comma trailing_comma expected_colon : Complaint
  string_expected unmatched_quote unexpected_token : Complaint
  duplicate_key invalid_number unexpected_identifier : Bytes → Complaint

-- The message of an error.
unfoldable pub describe : Complaint → Bytes
describe unexpected_end = codes "Unexpected end of input"
describe trailing_characters = codes "Trailing characters in json"
describe expected_comma = codes "Expected ','"
describe trailing_comma = codes "Trailing ','"
describe expected_colon = codes "Expected ':'"
describe string_expected = codes "String expected"
describe unmatched_quote = codes "Unmatched '\"'"
describe unexpected_token = codes "Unexpected token"
describe (duplicate_key key) = codes "Duplicate key '" ++ (key ++ codes "'")
describe (invalid_number text) = codes "Invalid number value: '" ++ (text ++ codes "'")
describe (unexpected_identifier text) = codes "Unexpected '" ++ (text ++ codes "'")

pub record ParseError : Type 0 where
  pub what : Complaint
  pub text_pos : ℕ

abbrev pub fail : {A : Type 0} → ℕ → Complaint → Bytes → Outcome ParseError A
fail size what at = unexpected (record { what = what; text_pos = size - length at })

-- `*m_pos`; each caller has tested for the end before.
abbrev pub front : Bytes → ℕ
front [] = 0
front (c ∷ s) = c

abbrev pub tail : Bytes → Bytes
tail [] = []
tail (c ∷ s) = s

unfoldable pub skip_whitespace : Bytes → Bytes
skip_whitespace [] = []
skip_whitespace (c ∷ s) = if is_space c then skip_whitespace s else c ∷ s

-- `atEnd()`.
abbrev pub at_end : Bytes → Bool
at_end [] = true
at_end (c ∷ s) = false
