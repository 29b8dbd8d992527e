-- ===== src/Generator/Text.antt =====
-- `replaceString`, `splitStringView`, `joinStrings` and the functions on identifiers and comments of
-- lspgen/lspgen.cpp. The rest of a text from the position `srcIdx` on is a text of its own.
use lsp_framework_noec.Base.{
  ℕ, zero, suc, ◌+◌, Bool, true, false, ◌&&◌, not, List, [], ◌∷◌, ◌++◌, Option, none, some, Bytes,
  codes, length, take, drop, replicate, if◌then◌else◌, ◌==◌, Outcome, ok, out_of_fuel, ◌>>=◌,
  is_alnum, to_lower,
}
use lsp_framework_noec.Connection.Header.{starts_with}
use lsp_framework_noec.MetaModel.Model.{capitalize_string}

-- A body that comes to an end: there are no errors and no exceptions here.
abbrev pub Call : Type 0 → Type 0
Call A = Outcome ⊥ A

abbrev pub later : Option ℕ → Option ℕ
later none = none
later (some i) = some (suc i)

-- `std::string_view::find` of a pattern that is not empty.
unfoldable pub find_text : Bytes → Bytes → Option ℕ
find_text [] pattern = none
find_text (c ∷ text) pattern =
    let rest = find_text text pattern in
    if starts_with (c ∷ text) pattern then some 0 else later rest

-- What a round of `replaceString` makes of the text from `srcIdx` on: `again` is the next round.
unfoldable pub replace_match : Bytes → Bytes → Bytes → (Bytes → Call Bytes) → Option ℕ → Call Bytes
replace_match text pattern replacement again none = ok text
replace_match text pattern replacement again (some i) = do
  rest ← again (drop (i + length pattern) text)
  ok (take i text ++ (replacement ++ rest))

unfoldable pub replace_loop : ℕ → Bytes → Bytes → Bytes → Call Bytes
replace_loop zero text pattern replacement = out_of_fuel
replace_loop (suc fuel) text pattern replacement =
    replace_match text pattern replacement (λ rest. replace_loop fuel rest pattern replacement)
      (find_text text pattern)

unfoldable pub replace_string : Bytes → Bytes → Bytes → Call Bytes
replace_string text pattern replacement = replace_loop (suc (length text)) text pattern replacement

-- What a round of `splitStringView` makes of the text from `srcIdx` on.
unfoldable pub split_match :
    Bytes → Bytes → Bool → (Bytes → Call (List Bytes)) → Option ℕ → Call (List Bytes)
split_match text separator skip_empty again none = ok (if length text == 0 then [] else text ∷ [])
split_match text separator skip_empty again (some i) = do
  rest ← again (drop (i + length separator) text)
  ok (if i == 0 && skip_empty then rest else take i text ∷ rest)

unfoldable pub split_loop : ℕ → Bytes → Bytes → Bool → Call (List Bytes)
split_loop zero text separator skip_empty = out_of_fuel
split_loop (suc fuel) text separator skip_empty =
    split_match text separator skip_empty (λ rest. split_loop fuel rest separator skip_empty)
      (find_text text separator)

unfoldable pub split_string_view : Bytes → Bytes → Bool → Call (List Bytes)
split_string_view text separator skip_empty =
    split_loop (suc (length text)) text separator skip_empty

-- The loop of `joinStrings` behind the first string.
unfoldable pub join_rest : List Bytes → Bytes → (Bytes → Bytes) → Bytes
join_rest [] separator transform = []
join_rest (s ∷ strings) separator transform =
    separator ++ (transform s ++ join_rest strings separator transform)

unfoldable pub join_strings : List Bytes → Bytes → (Bytes → Bytes) → Bytes
join_strings [] separator transform = []
join_strings (s ∷ strings) separator transform =
    transform s ++ join_rest strings separator transform

unfoldable pub uncapitalize_string : Bytes → Bytes
uncapitalize_string [] = []
uncapitalize_string (c ∷ s) = to_lower c ∷ s

abbrev pub identifier_char : ℕ → ℕ
identifier_char c = if not (is_alnum c) && not (c == b'_') then b'_' else c

unfoldable pub identifier_chars : Bytes → Bytes
identifier_chars [] = []
identifier_chars (c ∷ s) = identifier_char c ∷ identifier_chars s

-- Without the `$` at the start.
abbrev pub without_dollar : Bytes → Bytes
without_dollar [] = []
without_dollar (c ∷ s) = if c == b'$' then s else c ∷ s

unfoldable pub upper_case_identifier : Bytes → Call Bytes
upper_case_identifier text = do
  parts ← split_string_view (without_dollar text) (codes "/") true
  ok (identifier_chars (join_strings parts (codes "_") capitalize_string))

unfoldable pub lower_case_identifier : Bytes → Bytes
lower_case_identifier text = uncapitalize_string text

unfoldable pub to_json_sig : Bytes → Bytes
to_json_sig type_name = codes "json::Value toJson(" ++ (type_name ++ codes "&& value)")

unfoldable pub from_json_sig : Bytes → Bytes
from_json_sig type_name =
    codes "void fromJson(json::Value&& json, " ++ (type_name ++ codes "& value)")

-- A line of a documentation in which no comment starts or ends.
unfoldable pub escaped_line : Bytes → Call Bytes
escaped_line line = do
  opened ← replace_string line (codes "/*") (codes "/_*")
  replace_string opened (codes "*/") (codes "*_/")

unfoldable pub comment_lines : Bytes → List Bytes → Call Bytes
comment_lines indent [] = ok []
comment_lines indent (line ∷ lines) = do
  text ← escaped_line line
  rest ← comment_lines indent lines
  ok (indent ++ (codes " * " ++ (text ++ (codes "\n" ++ rest))))

abbrev pub title_line : Bytes → Bytes → Bytes
title_line indent [] = []
title_line indent (c ∷ title) = indent ++ (codes " * " ++ ((c ∷ title) ++ codes "\n"))

-- The line between the title and the documentation.
abbrev pub gap_line : Bytes → Bytes → Bytes
gap_line indent [] = []
gap_line indent (c ∷ title) = indent ++ codes " *\n"

abbrev pub finish_comment : Bytes → Bytes → Bytes
finish_comment indent body = indent ++ (codes "/*\n" ++ (body ++ (indent ++ codes " */\n")))

abbrev pub comment_of : Bytes → Bytes → List Bytes → Call Bytes
comment_of indent [] [] = ok []
comment_of indent (c ∷ title) [] = ok (finish_comment indent (title_line indent (c ∷ title)))
comment_of indent title (line ∷ lines) = do
  text ← comment_lines indent (line ∷ lines)
  ok (finish_comment indent (title_line indent title ++ (gap_line indent title ++ text)))

unfoldable pub documentation_comment : Bytes → Bytes → ℕ → Call Bytes
documentation_comment title documentation indent_level = do
  lines ← split_string_view documentation (codes "\n") false
  comment_of (replicate indent_level b'\t') title lines
