-- ===== src/Uri/Parse.antt =====
-- `Uri::parse` of lsp/uri.cpp.
use lsp_framework_noec.Base.{
  ℕ, ◌+◌, Bool, true, false, not, ◌&&◌, ◌||◌, [], ◌∷◌, Bytes, length, take, drop, leb, ◌==◌,
  if◌then◌else◌,
}
use lsp_framework_noec.Uri.Coding.{decode}
use lsp_framework_noec.Uri.Record.{
  Uri, empty_uri, substr, parse_uri_scheme, parse_uri_authority, parse_uri_path, parse_uri_query,
  insert_scheme, insert_authority, insert_path, insert_query, insert_fragment,
}

abbrev starts : ℕ → Bytes → Bool
starts c [] = false
starts c (d ∷ s) = d == c

unfoldable pub has_char_at : Bytes → ℕ → ℕ → Bool
has_char_at s idx c = starts c (drop idx s)

-- From the fragment on.
unfoldable pub parse_fragment : Bytes → ℕ → Uri → Uri
parse_fragment s idx u = if has_char_at s idx b'#' then insert_fragment (drop (idx + 1) s) u else u

-- From the query on.
unfoldable pub parse_query : Bytes → ℕ → Uri → Uri
parse_query s idx u =
    let len = parse_uri_query (drop (idx + 1) s) in
    if has_char_at s idx b'?'
    then parse_fragment s (idx + 1 + len) (insert_query (substr (idx + 1) len s) u)
    else parse_fragment s idx u

-- From the path on.
unfoldable pub parse_path : Bytes → ℕ → Bool → Uri → Uri
parse_path s idx has_authority u =
    let len = parse_uri_path (drop idx s) in
    if leb (length s) idx
    then parse_query s idx u
    else if has_authority && not (has_char_at s idx b'/')
    then empty_uri
    else parse_query s (idx + len) (insert_path (decode (substr idx len s)) u)

-- From the authority on.
unfoldable pub parse_authority : Bytes → ℕ → Uri → Uri
parse_authority s idx u =
    let len = parse_uri_authority (drop (idx + 2) s) in
    if has_char_at s idx b'/' && has_char_at s (idx + 1) b'/'
    then parse_path s (idx + 2 + len) true (insert_authority (substr (idx + 2) len s) u)
    else parse_path s idx false u

unfoldable pub parse : Bytes → Uri
parse s =
    let len = parse_uri_scheme s in
    if len == 0 || not (has_char_at s len b':')
    then empty_uri
    else parse_authority s (len + 1) (insert_scheme (take len s) empty_uri)
