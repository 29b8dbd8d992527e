-- ===== src/Json/Tests.antt =====
-- Runs of the JSON parser and printer on small inputs.
use lsp_framework_noec.Base.{
  ◌≡◌, refl, none, codes, ℤ, pos, negsuc, ok, is_space, is_digit, is_alpha, is_alnum,
  from_chars_signed, scan_digits, bytes_eq,
}
use lsp_framework_noec.Json.Value.{Value, null, integer, nil, cons, end, field, push_back, set_back}
use lsp_framework_noec.Json.Floats.{Floats}
use lsp_framework_noec.Json.Object.{assign, subscript, contains}
use lsp_framework_noec.Json.Literal.{
  from_string_literal, unescape_chars, unescape_char, remove_suffix,
}
use lsp_framework_noec.Json.Cursor.{skip_whitespace}
use lsp_framework_noec.Json.Scalar.{
  scan_string, parse_string, is_decimal_mark, is_number_char, span, any_decimal_mark, parse_number,
  parse_integer, parse_identifier, parse_simple_value,
}
use lsp_framework_noec.Json.Parser.{
  parse, run, round, dispatch, finish, handle_value, handle_object, handle_array, handle_object_key,
  pop_state, current_value, set_current,
}

-- Numbers as decimals: `std::stod` on this type always throws.
abbrev pub no_floats : Floats
no_floats = record {
  Double = ℤ;
  stod = λ text. none;
  to_string = λ d. codes "0.0";
  of_int = λ n. n;
  to_int = λ d. d;
  to_int-of_int = λ n h. refl;
}

parse_nested :
    parse no_floats (codes "{\"a\": [1, -2,null],\"b\\n\":{ }} ")
    ≡ ok (
        Value.object (
          field
            (codes "a")
            (Value.array (cons (integer (pos 1)) (cons (integer (negsuc 1)) (cons null nil))))
            (field (codes "b\n") (Value.object end) end)))
unfolding parse run round dispatch finish handle_value handle_object handle_array handle_object_key
    pop_state current_value set_current scan_string parse_string is_decimal_mark is_number_char span
    any_decimal_mark parse_number parse_integer parse_identifier parse_simple_value
    from_string_literal unescape_chars unescape_char remove_suffix assign subscript contains
    push_back set_back skip_whitespace is_space is_digit is_alpha is_alnum from_chars_signed
    scan_digits bytes_eq
parse_nested = refl
