-- ===== src/Uri/Views.antt =====
-- What the getters and setters of `Uri` do to the parts that its string holds.
use lsp_framework_noec.Base.{
  ℕ, zero, suc, ◌%◌, ◌^◌, ◌≤◌, ◌≡◌, ◌≢◌, refl, ap, true, Option, none, some, [], ◌∷◌, ◌++◌, Bytes,
  length, take, codes, drop-length_append, arith, if◌then◌else◌, ltb,
}
use lsp_framework_noec.Uri.Coding.{encode}
use lsp_framework_noec.Uri.Record
use lsp_framework_noec.Uri.Record.{
  Uri, empty_uri, uint16, substr, replace, change, lower_all, insert_scheme, insert_authority,
  insert_path, insert_query, insert_fragment, remove_authority, remove_query, remove_fragment,
  set_scheme, set_authority, set_path, set_query, set_fragment, parse_uri_scheme,
  parse_uri_authority, parse_uri_query, to_string, is_valid,
}
use lsp_framework_noec.Uri.Sections.{
  Parts, or_empty, is_present, Holds, substr-middle, path_at, query_at, fragment_at, path_text,
  query_text, fragment_text,
}
use lsp_framework_noec.Uri.Edits.{replace-at}

substr-at :
    (at count : ℕ) (s a b c : Bytes)
    → at ≡ length a
    → count ≡ length b
    → s ≡ a ++ (b ++ c)
    → substr at count s ≡ b
substr-at at count s a b c ea eb es = rw (ea, eb, es) (substr-middle a b c)

take-append : (n : ℕ) (t c : Bytes) → n ≤ length t → take n (t ++ c) ≡ take n t
take-append zero t c h = refl
take-append (suc n) [] c h = absurd (omega arith)
take-append (suc n) (x ∷ t) c h = ap (◌∷◌ x) (take-append n t c (omega arith))

substr-front :
    (at count : ℕ) (s a t c : Bytes)
    → at ≡ length a
    → count ≤ length t
    → s ≡ a ++ (t ++ c)
    → substr at count s ≡ take count t
substr-front at count s a t c ea le es =
    rw (ea, es) (rw (drop-length_append a (t ++ c)) (take-append count t c le))

-- An absent part is empty.
absent_empty : (o : Option Bytes) → (if is_present o then or_empty o else []) ≡ or_empty o
absent_empty none = refl
absent_empty (some s) = refl

module _ (u : Uri) (p : Parts) (h : Holds u p) where
  scheme_part : Record.scheme u ≡ p.scheme
  unfolding Record.scheme
  scheme_part = substr-at 0 u.scheme_len u.text [] p.scheme _ refl h.scheme_len h.text

  authority_part : Record.authority u ≡ or_empty p.authority
  unfolding Record.authority
  authority_part =
      let part =
        substr-at u.scheme_len u.authority_len u.text p.scheme (or_empty p.authority) _ h.scheme_len
          h.authority_len h.text in
      rw (part, h.has_authority) (absent_empty p.authority)

  path_part : Record.path u ≡ p.path
  unfolding Record.path
  path_part = substr-at _ u.path_len u.text _ p.path _ (path_at u p h) h.path_len (path_text u p h)

  query_part : Record.query u ≡ or_empty p.query
  unfolding Record.query
  query_part =
      let part =
        substr-at _ u.query_len u.text _ (or_empty p.query) _ (query_at u p h) h.query_len
          (query_text u p h) in
      rw (part, h.has_query) (absent_empty p.query)

  fragment_part : Record.fragment u ≡ or_empty p.fragment
  unfolding Record.fragment
  fragment_part =
      let part =
        substr-at _ u.fragment_len u.text _ (or_empty p.fragment) _ (fragment_at u p h)
          h.fragment_len (fragment_text u p h) in
      rw (part, h.has_fragment) (absent_empty p.fragment)

  -- The getters give the parts, and an absent part as the empty text.
  pub getters-Holds :
      (Record.scheme u ≡ p.scheme)
      × (Record.authority u ≡ or_empty p.authority)
      × (Record.path u ≡ p.path)
      × (Record.query u ≡ or_empty p.query)
      × (Record.fragment u ≡ or_empty p.fragment)
  getters-Holds = (scheme_part, authority_part, path_part, query_part, fragment_part)

  -- The path that is read after one was set: what the 16 bits of its length leave of it.
  pub path-set_path : (t : Bytes) → Record.path (set_path t u).1 ≡ take (length t % 2 ^ 16) t
  unfolding Record.path set_path insert_path
  path-set_path t =
      substr-front _ (uint16 (length t)) _ _ t _ (path_at u p h) (omega arith)
        (replace-at _ u.path_len u.text _ p.path _ t (path_at u p h) h.path_len (path_text u p h))

-- The text of a URI in its parts.
abbrev pub marked : ℕ → Option Bytes → Bytes
marked c none = []
marked c (some s) = c ∷ s

abbrev pub after_slashes : Option Bytes → Bytes
after_slashes none = []
after_slashes (some s) = b'/' ∷ b'/' ∷ s

abbrev pub print_parts : Parts → Bytes
print_parts p =
    p.scheme
    ++ (b':'
        ∷ (after_slashes p.authority
            ++ (encode p.path (codes "/") ++ (marked b'?' p.query ++ marked b'#' p.fragment))))

marked_if : (c : ℕ) (o : Option Bytes) → (if is_present o then c ∷ or_empty o else []) ≡ marked c o
marked_if c none = refl
marked_if c (some s) = refl

slashes_if :
    (o : Option Bytes) → (if is_present o then codes "//" ++ or_empty o else []) ≡ after_slashes o
slashes_if none = refl
slashes_if (some s) = refl

positive : (s : Bytes) → s ≢ [] → ltb 0 (length s) ≡ true
positive [] n = absurd (n refl)
positive (c ∷ s) n = ground arith

-- `toString` prints the parts of a `Uri` that has a scheme.
pub to_string-Holds :
    (u : Uri) (p : Parts) → Holds u p → p.scheme ≢ [] → to_string u ≡ print_parts p
unfolding to_string is_valid
to_string-Holds u p h n =
    let (is_scheme, is_authority, is_path, is_query, is_fragment) = getters-Holds u p h in
    rw
      (
        is_scheme, is_authority, is_path, is_query, is_fragment, h.has_authority, h.has_query,
        h.has_fragment, h.scheme_len,
      )
      (rw
        (
          slashes_if p.authority,
          marked_if b'?' p.query,
          marked_if b'#' p.fragment,
          positive p.scheme n,
        )
        refl)
