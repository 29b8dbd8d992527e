-- ===== src/Witnesses.antt =====
-- The theorems at concrete inputs.
use lsp_framework_noec.Base.{
  Bytes, ◌+◌, ◌%◌, ◌^◌, ◌<◌, ◌≡◌, ◌≢◌, refl, true, false, List, [], ◌∷◌, ◌++◌, none, some, codes,
  length, take, ℤ, pos, negsuc, arith, ok, out_of_fuel, to_string_nat, to_string_int, bytes_eq,
  is_alnum, is_alpha, is_digit, to_lower, if◌then◌else◌,
}
use mathlib.Core.List.{cons-ne-nil}
use lsp_framework_noec.Json.Value.{
  Value, Fields, null, boolean, integer, string, nil, cons, end, field,
}
use lsp_framework_noec.Json.Object.{contains, assign}
use lsp_framework_noec.Json.Literal.{escape_char, to_string_literal}
use lsp_framework_noec.Json.Parser.{parse}
use lsp_framework_noec.Json.Parser.Total.{parse-ne-out_of_fuel}
use lsp_framework_noec.Json.Printer.{emit, new_line, separator, indent, stringify}
use lsp_framework_noec.Json.RoundTrip.Whole.{parse-stringify}
use lsp_framework_noec.Json.Tests.{no_floats}
use lsp_framework_noec.Jsonrpc
use lsp_framework_noec.Jsonrpc.{
  Message, request, response, version_missing, message_to_json, message_batch_to_json,
  message_from_json, message_batch_from_json,
}
use lsp_framework_noec.Jsonrpc.RoundTrip.{
  message_from_json-message_to_json, message_batch_from_json-message_batch_to_json,
}
use lsp_framework_noec.Io.{Stream}
use lsp_framework_noec.Connection.Message.{
  message, message_json, write_message, read_frame, read_message,
}
use lsp_framework_noec.Connection.RoundTrip.Lines.{fresh}
use lsp_framework_noec.Connection.RoundTrip.Messages.{read_message-write_message}
use lsp_framework_noec.Connection.Endless.{read_frame-endless}
use lsp_framework_noec.Uri.Coding.{has_char, encode, decode}
use lsp_framework_noec.FileUri.{resolve, from_path, to_string-from_path}
use lsp_framework_noec.Uri.Coded.{decode-encode}
use lsp_framework_noec.Uri.Record
use lsp_framework_noec.Uri.Record.{
  Uri, empty_uri, parse_uri_scheme, is_scheme_char, set_path, to_string,
}
use lsp_framework_noec.Uri.Sections.{Holds}
use lsp_framework_noec.Uri.Views.{path-set_path}
use lsp_framework_noec.Uri.Calls.{
  edit_parts, scheme, authority, path, no_authority, Edit, apply_all, edit_all, no_parts,
  apply_all-empty_uri,
}

abbrev quiet : Stream
quiet = record {
  input = [];
  input_breaks = false;
  input_error = false;
  output = [];
  output_broken = false;
}

abbrev ping : Message ℤ
ping =
    request (record { id = some (Jsonrpc.integer (pos 1)); method = codes "ping"; params = none })

abbrev pong : Message ℤ
pong =
    response
      (record { id = Jsonrpc.string (codes "a"); result = some (boolean true); error = none })

abbrev nested : Value ℤ
nested = Value.object (
    field (codes "a\n") (Value.array (cons (integer (negsuc 6)) (cons null nil)))
      (field [] (string (codes "x")) end))

ping-length : length (stringify no_floats (message_json (message ping)) false) ≡ 40
unfolding stringify message_json message_to_json emit new_line separator indent Jsonrpc.id_to_json
    assign bytes_eq to_string_literal escape_char to_string_int to_string_nat
ping-length = refl

ping_size : length (stringify no_floats (message_json (message ping)) false) < 2 ^ 63
ping_size = rw ping-length (ground arith)

read_message-write_message_example :
    ((write_message no_floats (message ping) quiet).0 ≡ ok tt)
    × (read_message no_floats (record quiet {
      input = (write_message no_floats (message ping) quiet).1.output ++ codes "Co";
    })
        ≡ (ok (message ping), record quiet { input = codes "Co" }))
unfolding message_json message_to_json assign Jsonrpc.id_to_json contains bytes_eq
read_message-write_message_example =
    read_message-write_message no_floats (message ping) quiet quiet (codes "Co") refl refl
      (ground arith, tt) (refl, tt, (refl, ground arith, (refl, tt, tt))) ping_size

parse-stringify_example : parse no_floats (stringify no_floats nested true) ≡ ok nested
unfolding contains bytes_eq
parse-stringify_example =
    parse-stringify no_floats nested true (refl, (ground arith, (tt, tt)), (refl, tt, tt))

apply_all-empty_uri_example :
    Holds
      (apply_all
        (path (codes "/a b") ∷ scheme (codes "File") ∷ authority (codes "h%2f") ∷ no_authority ∷ [])
        empty_uri)
      (edit_all
        (path (codes "/a b") ∷ scheme (codes "File") ∷ authority (codes "h%2f") ∷ no_authority ∷ [])
        no_parts)
apply_all-empty_uri_example =
    apply_all-empty_uri
      (path (codes "/a b") ∷ scheme (codes "File") ∷ authority (codes "h%2f") ∷ no_authority ∷ [])
      (ground arith, (tt, (tt, (tt, tt))))

message_from_json-message_to_json_example :
    message_from_json no_floats (message_to_json ping) ≡ ok ping
message_from_json-message_to_json_example =
    message_from_json-message_to_json no_floats ping (ground arith, tt)

parse-ne-out_of_fuel_example : parse no_floats (codes "[[{\"a\":") ≢ out_of_fuel
parse-ne-out_of_fuel_example = parse-ne-out_of_fuel no_floats (codes "[[{\"a\":")

ping_pong-cons : ◌≢◌ {A = List (Message ℤ)} (ping ∷ pong ∷ []) []
ping_pong-cons = cons-ne-nil _ _

message_batch_example :
    message_batch_from_json no_floats (message_batch_to_json (ping ∷ pong ∷ []))
    ≡ ok (ping ∷ pong ∷ [])
message_batch_example =
    message_batch_from_json-message_batch_to_json no_floats (ping ∷ pong ∷ []) ping_pong-cons
      ((ground arith, tt), ((tt, refl, tt), tt))

two_digits : length (to_string_nat 2) + 55 < 202
unfolding to_string_nat
two_digits = ground arith

decode-encode_example : decode (encode (codes "/a b%") (codes "/")) ≡ codes "/a b%"
unfolding has_char
decode-encode_example =
    decode-encode (codes "/a b%") (codes "/")
      (ground arith, (ground arith, (ground arith, (ground arith, (ground arith, tt))))) refl

-- `file:/a` after its calls.
abbrev short_calls : List Edit
short_calls = path (codes "/a") ∷ scheme (codes "file") ∷ []

short_calls-Holds : Holds (apply_all short_calls empty_uri) (edit_all short_calls no_parts)
short_calls-Holds = apply_all-empty_uri short_calls (ground arith, (tt, tt))

path-set_path_example :
    Record.path (set_path (codes "/bc") (apply_all short_calls empty_uri)).1
    ≡ take (length (codes "/bc") % 2 ^ 16) (codes "/bc")
path-set_path_example =
    path-set_path (apply_all short_calls empty_uri) (edit_all short_calls no_parts)
      short_calls-Holds (codes "/bc")

short_calls-scheme : (edit_all short_calls no_parts).scheme ≢ []
unfolding edit_parts parse_uri_scheme is_scheme_char is_alnum is_alpha is_digit to_lower
short_calls-scheme = cons-ne-nil _ _

abbrev odd_request : Fields ℤ
odd_request = field (codes "jsonrpc") (string (codes "2.0")) (field (codes "method") null end)

read_frame-endless_example : (read_frame 9 (fresh quiet (codes "Con"))).0 ≡ out_of_fuel
read_frame-endless_example =
    read_frame-endless 8 b'C' (codes "on") quiet
      (
        (ground arith, ground arith),
        ((ground arith, ground arith), ((ground arith, ground arith), tt)),
      )
      (ground arith)

-- A file system with one link, from `/l` to `/a b`.
abbrev follow : Bytes → Bytes
follow p = if bytes_eq p (codes "/l") then codes "/a b" else p

abbrev same_path : Bytes → Bytes
same_path p = p

to_string-from_path_example :
    to_string (from_path same_path follow (bytes_eq (codes "/l")) (codes "/l"))
    ≡ codes "file://"
      ++ encode (resolve same_path follow (bytes_eq (codes "/l")) (codes "/l")) (codes "/")
unfolding resolve bytes_eq
to_string-from_path_example =
    to_string-from_path same_path follow (bytes_eq (codes "/l")) (codes "/l") (ground arith)
