-- ===== src/FileUri.antt =====
-- `FileUri` of lsp/fileuri.h and lsp/fileuri.cpp, as it is built outside Windows. `absolute`,
-- `exists` and `canonical` are those of `std::filesystem`, where they do not throw.
use lsp_framework_noec.Base.{
  ◌^◌, ◌<◌, ◌≡◌, ◌∙◌, Bool, ◌&&◌, List, [], ◌∷◌, ◌++◌, append-nil, ap, Bytes, codes, length,
  bytes_eq, if◌then◌else◌, is_alnum, is_alpha, is_digit, to_lower,
}
use mathlib.Core.List.{cons-ne-nil}
use lsp_framework_noec.Uri.Coding.{encode, normalize_encoded_case}
use lsp_framework_noec.Uri.Record
use lsp_framework_noec.Uri.Record.{
  Uri, empty_uri, set_scheme, set_authority, is_valid, to_string, parse_uri_scheme,
  parse_uri_authority, is_scheme_char,
}
use lsp_framework_noec.Uri.Views.{to_string-Holds}
use lsp_framework_noec.Uri.Calls.{
  Edit, scheme, authority, path, apply, edit_parts, apply_all, edit_all, no_parts,
  apply_all-empty_uri,
}

-- `FileUri::Scheme`.
abbrev pub file_scheme : Bytes
file_scheme = codes "file"

-- `FileUri()`.
unfoldable pub file_uri : Uri
file_uri = (set_authority [] (set_scheme file_scheme empty_uri).1).1

-- `FileUri(const Uri&)`.
unfoldable pub from_uri : Uri → Uri
from_uri other =
    if is_valid other && bytes_eq (Record.scheme other) file_scheme then other else empty_uri

module _ (absolute canonical : Bytes → Bytes) (exists : Bytes → Bool) where
  -- The path that `setPath` stores.
  unfoldable pub resolve : Bytes → Bytes
  resolve p = let full = absolute p in if exists full then canonical full else full

  unfoldable pub set_file_path : Bytes → Uri → Bool × Uri
  set_file_path p u = Record.set_path (resolve p) u

  unfoldable pub from_path : Bytes → Uri
  from_path p = (set_file_path p file_uri).1

  abbrev file_calls : Bytes → List Edit
  file_calls p = scheme file_scheme ∷ authority [] ∷ path (resolve p) ∷ []

  -- The URI of a path whose resolved form is shorter than 2 ^ 16 bytes is `file://` and that form,
  -- encoded with its slashes kept.
  pub to_string-from_path :
      (p : Bytes)
      → length (resolve p) < 2 ^ 16
      → to_string (from_path p) ≡ codes "file://" ++ encode (resolve p) (codes "/")
  unfolding from_path set_file_path file_uri apply edit_parts parse_uri_scheme parse_uri_authority
      is_scheme_char is_alnum is_alpha is_digit to_lower normalize_encoded_case
  to_string-from_path p h =
      to_string-Holds (apply_all (file_calls p) empty_uri) (edit_all (file_calls p) no_parts)
        (apply_all-empty_uri (file_calls p) (tt, (tt, (h, tt)))) (cons-ne-nil _ _)
      ∙ ap (λ s. codes "file://" ++ s) (append-nil (encode (resolve p) (codes "/")))
