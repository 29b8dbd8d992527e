-- ===== src/Uri/Record.antt =====
-- The class `Uri` of lsp/uri.h: its data, getters, setters, `remove*`, `insert*` and `toString`. All
-- parts stand in one string, one behind the other, and the lengths are of 16 bits. Positions
-- within the string are what `replace` is modelled for: see Range.
use lsp_framework_noec.Base.{
  ℕ, suc, ◌+◌, ◌%◌, ◌^◌, Bool, true, false, [], ◌∷◌, ◌++◌, Bytes, codes, length, take, drop, ltb,
  ◌==◌, if◌then◌else◌, to_lower, is_alnum, not, ◌||◌,
}
use lsp_framework_noec.Uri.Coding.{encode, normalize_encoded_case}

pub record Uri : Type 0 where
  -- `m_data`.
  pub text : Bytes
  pub scheme_len : ℕ
  pub authority_len : ℕ
  pub path_len : ℕ
  pub query_len : ℕ
  pub fragment_len : ℕ
  pub has_authority : Bool
  pub has_query : Bool
  pub has_fragment : Bool

-- `Uri()`.
abbrev pub empty_uri : Uri
empty_uri = record {
  text = [];
  scheme_len = 0;
  authority_len = 0;
  path_len = 0;
  query_len = 0;
  fragment_len = 0;
  has_authority = false;
  has_query = false;
  has_fragment = false;
}

-- `static_cast<std::uint16_t>`.
abbrev pub uint16 : ℕ → ℕ
uint16 n = n % 2 ^ 16

-- The length of the text in front of the first character that fails a test.
abbrev pub span_length : (ℕ → Bool) → Bytes → ℕ
span_length f [] = 0
span_length f (c ∷ s) = let rest = span_length f s in if f c then suc rest else 0

unfoldable pub is_scheme_char : ℕ → Bool
is_scheme_char c = is_alnum c || c == b'-' || c == b'.' || c == b'+'

unfoldable pub is_authority_char : ℕ → Bool
is_authority_char c = not (c == b'/' || c == b'?' || c == b'#')

unfoldable pub is_path_char : ℕ → Bool
is_path_char c = not (c == b'?' || c == b'#')

unfoldable pub is_query_char : ℕ → Bool
is_query_char c = not (c == b'#')

-- The counters are of 16 bits.
unfoldable pub parse_uri_scheme : Bytes → ℕ
parse_uri_scheme s = uint16 (span_length is_scheme_char s)

unfoldable pub parse_uri_authority : Bytes → ℕ
parse_uri_authority s = uint16 (span_length is_authority_char s)

unfoldable pub parse_uri_path : Bytes → ℕ
parse_uri_path s = uint16 (span_length is_path_char s)

unfoldable pub parse_uri_query : Bytes → ℕ
parse_uri_query s = uint16 (span_length is_query_char s)

-- `substr(at, count)`.
abbrev pub substr : ℕ → ℕ → Bytes → Bytes
substr at count s = take count (drop at s)

-- `s.replace(at, count, t)` with `at` in `s`.
abbrev pub replace : ℕ → ℕ → Bytes → Bytes → Bytes
replace at count t s = take at s ++ (t ++ drop count (drop at s))

-- A change to the `count` characters at a position.
abbrev pub change : ℕ → ℕ → (Bytes → Bytes) → Bytes → Bytes
change at count f s = take at s ++ (f (take count (drop at s)) ++ drop count (drop at s))

abbrev pub lower_all : Bytes → Bytes
lower_all [] = []
lower_all (c ∷ s) = to_lower c ∷ lower_all s

unfoldable pub is_valid : Uri → Bool
is_valid u = ltb 0 u.scheme_len

unfoldable pub scheme : Uri → Bytes
scheme u = substr 0 u.scheme_len u.text

unfoldable pub authority : Uri → Bytes
authority u = if u.has_authority then substr u.scheme_len u.authority_len u.text else []

unfoldable pub path : Uri → Bytes
path u = substr (u.scheme_len + u.authority_len) u.path_len u.text

unfoldable pub query : Uri → Bytes
query u =
    if u.has_query
    then substr (u.scheme_len + u.authority_len + u.path_len) u.query_len u.text
    else []

unfoldable pub fragment : Uri → Bytes
fragment u =
    if u.has_fragment
    then substr (u.scheme_len + u.authority_len + u.path_len + u.query_len) u.fragment_len u.text
    else []

unfoldable pub insert_scheme : Bytes → Uri → Uri
insert_scheme t u =
    let len = uint16 (length t) in
    record u { text = change 0 len lower_all (replace 0 u.scheme_len t u.text); scheme_len = len }

unfoldable pub insert_authority : Bytes → Uri → Uri
insert_authority t u =
    let at = u.scheme_len in
    let len = uint16 (length t) in
    record u {
      text = change at len (normalize_encoded_case 0) (replace at u.authority_len t u.text);
      authority_len = len;
      has_authority = true;
    }

unfoldable pub insert_path : Bytes → Uri → Uri
insert_path t u =
    let at = u.scheme_len + u.authority_len in
    record u { text = replace at u.path_len t u.text; path_len = uint16 (length t) }

unfoldable pub insert_query : Bytes → Uri → Uri
insert_query t u =
    let at = u.scheme_len + u.authority_len + u.path_len in
    let len = uint16 (length t) in
    record u {
      text = change at len (normalize_encoded_case 0) (replace at u.query_len t u.text);
      query_len = len;
      has_query = true;
    }

unfoldable pub insert_fragment : Bytes → Uri → Uri
insert_fragment t u =
    let at = u.scheme_len + u.authority_len + u.path_len + u.query_len in
    let len = uint16 (length t) in
    record u {
      text = change at len (normalize_encoded_case 0) (replace at u.fragment_len t u.text);
      fragment_len = len;
      has_fragment = true;
    }

unfoldable pub set_scheme : Bytes → Uri → Bool × Uri
set_scheme t u = if parse_uri_scheme t == length t then (true, insert_scheme t u) else (false, u)

unfoldable pub set_authority : Bytes → Uri → Bool × Uri
set_authority t u =
    if parse_uri_authority t == length t then (true, insert_authority t u) else (false, u)

unfoldable pub set_path : Bytes → Uri → Bool × Uri
set_path t u = (true, insert_path t u)

unfoldable pub set_query : Bytes → Uri → Bool × Uri
set_query t u = if parse_uri_query t == length t then (true, insert_query t u) else (false, u)

unfoldable pub set_fragment : Bytes → Uri → Bool × Uri
set_fragment t u = (true, insert_fragment t u)

unfoldable pub remove_authority : Uri → Uri
remove_authority u = record (insert_authority [] u) { has_authority = false }

unfoldable pub remove_query : Uri → Uri
remove_query u = record (insert_query [] u) { has_query = false }

unfoldable pub remove_fragment : Uri → Uri
remove_fragment u = record (insert_fragment [] u) { has_fragment = false }

unfoldable pub to_string : Uri → Bytes
to_string u =
    let encoded_path = encode (path u) (codes "/") in
    let authority_text = if u.has_authority then codes "//" ++ authority u else [] in
    let query_text = if u.has_query then b'?' ∷ query u else [] in
    let fragment_text = if u.has_fragment then b'#' ∷ fragment u else [] in
    if is_valid u
    then scheme u ++ (b':' ∷ (authority_text ++ (encoded_path ++ (query_text ++ fragment_text))))
    else []
