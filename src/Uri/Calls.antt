-- ===== src/Uri/Calls.antt =====
-- Sequences of calls of the setters and of `remove*` of `Uri`.
use lsp_framework_noec.Base.{
  ℕ, ◌^◌, ◌<◌, ◌≡◌, refl, Bool, true, false, List, none, some, [], ◌∷◌, Bytes, length, All, arith,
  if◌then◌else◌, ◌==◌,
}
use lsp_framework_noec.Uri.Coding.{normalize_encoded_case}
use lsp_framework_noec.Uri.Record.{
  Uri, empty_uri, uint16, lower_all, remove_authority, remove_query, remove_fragment, set_scheme,
  set_authority, set_path, set_query, set_fragment, parse_uri_scheme, parse_uri_authority,
  parse_uri_query,
}
use lsp_framework_noec.Uri.Sections.{Parts, Holds}
use lsp_framework_noec.Uri.Edits.{
  insert_scheme-Holds, insert_authority-Holds, insert_path-Holds, insert_query-Holds,
  insert_fragment-Holds,
}

-- The calls that change a `Uri` from outside.
pub data Edit : Type 0 where
  scheme authority path query fragment : Bytes → Edit
  no_authority no_query no_fragment : Edit

unfoldable pub apply : Edit → Uri → Uri
apply (scheme t) u = (set_scheme t u).1
apply (authority t) u = (set_authority t u).1
apply (path t) u = (set_path t u).1
apply (query t) u = (set_query t u).1
apply (fragment t) u = (set_fragment t u).1
apply no_authority u = remove_authority u
apply no_query u = remove_query u
apply no_fragment u = remove_fragment u

-- What each does to the parts: a text that its parser does not read to its end changes nothing.
unfoldable pub edit_parts : Edit → Parts → Parts
edit_parts (scheme t) p =
    if parse_uri_scheme t == length t then record p { scheme = lower_all t } else p
edit_parts (authority t) p =
    if parse_uri_authority t == length t
    then record p { authority = some (normalize_encoded_case 0 t) }
    else p
edit_parts (path t) p = record p { path = t }
edit_parts (query t) p =
    if parse_uri_query t == length t
    then record p { query = some (normalize_encoded_case 0 t) }
    else p
edit_parts (fragment t) p = record p { fragment = some (normalize_encoded_case 0 t) }
edit_parts no_authority p = record p { authority = none }
edit_parts no_query p = record p { query = none }
edit_parts no_fragment p = record p { fragment = none }

-- A path or a fragment fits in 16 bits; the other setters check that themselves.
abbrev pub IsShort : Edit → Type 0
IsShort (path t) = length t < 2 ^ 16
IsShort (fragment t) = length t < 2 ^ 16
IsShort _ = Unit

abbrev pub apply_all : List Edit → Uri → Uri
apply_all [] u = u
apply_all (e ∷ es) u = apply_all es (apply e u)

abbrev pub edit_all : List Edit → Parts → Parts
edit_all [] p = p
edit_all (e ∷ es) p = edit_all es (edit_parts e p)

abbrev pub no_parts : Parts
no_parts = record { scheme = []; authority = none; path = []; query = none; fragment = none }

empty_uri-Holds : Holds empty_uri no_parts
empty_uri-Holds = record {
  text = refl;
  scheme_len = refl;
  authority_len = refl;
  path_len = refl;
  query_len = refl;
  fragment_len = refl;
  has_authority = refl;
  has_query = refl;
  has_fragment = refl;
}

-- A text whose 16-bit length is its length is short.
checked_short : (n m : ℕ) → (uint16 m == n) ≡ true → n < 2 ^ 16
checked_short n m e = ground arith

checked_scheme : (t : Bytes) → (parse_uri_scheme t == length t) ≡ true → length t < 2 ^ 16
unfolding parse_uri_scheme
checked_scheme t e = checked_short (length t) _ e

checked_authority : (t : Bytes) → (parse_uri_authority t == length t) ≡ true → length t < 2 ^ 16
unfolding parse_uri_authority
checked_authority t e = checked_short (length t) _ e

checked_query : (t : Bytes) → (parse_uri_query t == length t) ≡ true → length t < 2 ^ 16
unfolding parse_uri_query
checked_query t e = checked_short (length t) _ e

guarded :
    (b : Bool) (u v : Uri) (p q : Parts)
    → Holds u p
    → ((b ≡ true) → Holds v q)
    → Holds (if◌then◌else◌ {A = Bool × Uri} b (true, v) (false, u)).1 (if b then q else p)
guarded true u v p q h k = k refl
guarded false u v p q h k = h

module _ (u : Uri) (p : Parts) (h : Holds u p) where
  remove_authority-Holds : Holds (remove_authority u) (record p { authority = none })
  unfolding remove_authority normalize_encoded_case
  remove_authority-Holds =
      let k = insert_authority-Holds u p h [] (ground arith) in
      record {
        text = k.text;
        scheme_len = k.scheme_len;
        authority_len = k.authority_len;
        path_len = k.path_len;
        query_len = k.query_len;
        fragment_len = k.fragment_len;
        has_authority = refl;
        has_query = k.has_query;
        has_fragment = k.has_fragment;
      }

  remove_query-Holds : Holds (remove_query u) (record p { query = none })
  unfolding remove_query normalize_encoded_case
  remove_query-Holds =
      let k = insert_query-Holds u p h [] (ground arith) in
      record {
        text = k.text;
        scheme_len = k.scheme_len;
        authority_len = k.authority_len;
        path_len = k.path_len;
        query_len = k.query_len;
        fragment_len = k.fragment_len;
        has_authority = k.has_authority;
        has_query = refl;
        has_fragment = k.has_fragment;
      }

  remove_fragment-Holds : Holds (remove_fragment u) (record p { fragment = none })
  unfolding remove_fragment normalize_encoded_case
  remove_fragment-Holds =
      let k = insert_fragment-Holds u p h [] (ground arith) in
      record {
        text = k.text;
        scheme_len = k.scheme_len;
        authority_len = k.authority_len;
        path_len = k.path_len;
        query_len = k.query_len;
        fragment_len = k.fragment_len;
        has_authority = k.has_authority;
        has_query = k.has_query;
        has_fragment = refl;
      }

apply-Holds :
    (e : Edit) (u : Uri) (p : Parts) → IsShort e → Holds u p → Holds (apply e u) (edit_parts e p)
unfolding apply edit_parts set_scheme set_authority set_path set_query set_fragment remove_authority
    remove_query remove_fragment
apply-Holds (scheme t) u p s h =
    guarded _ u _ p _ h (λ e. insert_scheme-Holds u p h t (checked_scheme t e))
apply-Holds (authority t) u p s h =
    guarded _ u _ p _ h (λ e. insert_authority-Holds u p h t (checked_authority t e))
apply-Holds (path t) u p s h = insert_path-Holds u p h t s
apply-Holds (query t) u p s h =
    guarded _ u _ p _ h (λ e. insert_query-Holds u p h t (checked_query t e))
apply-Holds (fragment t) u p s h = insert_fragment-Holds u p h t s
apply-Holds no_authority u p s h = remove_authority-Holds u p h
apply-Holds no_query u p s h = remove_query-Holds u p h
apply-Holds no_fragment u p s h = remove_fragment-Holds u p h

apply_all-Holds :
    (es : List Edit) (u : Uri) (p : Parts)
    → All IsShort es
    → Holds u p
    → Holds (apply_all es u) (edit_all es p)
apply_all-Holds [] u p s h = h
apply_all-Holds (e ∷ es) u p (s, ss) h =
    apply_all-Holds es (apply e u) (edit_parts e p) ss (apply-Holds e u p s h)

-- Any sequence of calls of the setters and of `remove*` on a new `Uri`, with paths and fragments of
-- less than 2 ^ 16 characters, leaves a `Uri` that holds the parts that the same edits of five
-- separate texts give.
pub apply_all-empty_uri :
    (es : List Edit) → All IsShort es → Holds (apply_all es empty_uri) (edit_all es no_parts)
apply_all-empty_uri es s = apply_all-Holds es empty_uri no_parts s empty_uri-Holds
