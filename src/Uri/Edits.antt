-- ===== src/Uri/Edits.antt =====
-- The setters and `remove*` of `Uri` as edits of its parts.
use lsp_framework_noec.Base.{
  ℕ, ◌^◌, ◌<◌, ◌≡◌, refl, ap, sym, ◌∙◌, some, [], ◌++◌, append_assoc, append-nil, Bytes, length,
  arith,
}
use lsp_framework_noec.Uri.Coding.{normalize_encoded_case}
use lsp_framework_noec.Uri.Record.{
  Uri, uint16, replace, change, lower_all, insert_scheme, insert_authority, insert_path,
  insert_query, insert_fragment,
}
use lsp_framework_noec.Uri.Sections.{
  Parts, or_empty, Holds, replace-middle, change-middle, length-lower_all,
  length-normalize_encoded_case, path_at, query_at, fragment_at, path_text, query_text,
  fragment_text,
}

pub uint16_small : (n : ℕ) → n < 2 ^ 16 → uint16 n ≡ n
uint16_small n h = omega arith

pub replace-at :
    (at count : ℕ) (s a b c t : Bytes)
    → at ≡ length a
    → count ≡ length b
    → s ≡ a ++ (b ++ c)
    → replace at count t s ≡ a ++ (t ++ c)
replace-at at count s a b c t ea eb es = rw (ea, eb, es) (replace-middle a b c t)

change-at :
    (f : Bytes → Bytes) (at count : ℕ) (s a t c : Bytes)
    → at ≡ length a
    → count ≡ length t
    → s ≡ a ++ (t ++ c)
    → change at count f s ≡ a ++ (f t ++ c)
change-at f at count s a t c ea eb es = rw (ea, eb, es) (change-middle f a t c)

module _ (u : Uri) (p : Parts) (h : Holds u p) (t : Bytes) (small : length t < 2 ^ 16) where
  abbrev normal : Bytes
  normal = normalize_encoded_case 0 t

  pub insert_scheme-Holds : Holds (insert_scheme t u) (record p { scheme = lower_all t })
  unfolding insert_scheme
  insert_scheme-Holds = record {
    text =
        change-at lower_all 0 (uint16 (length t)) _ [] t _ refl (uint16_small (length t) small)
          (replace-at 0 u.scheme_len u.text [] p.scheme _ t refl h.scheme_len h.text);
    scheme_len = uint16_small (length t) small ∙ sym (length-lower_all t);
    authority_len = h.authority_len;
    path_len = h.path_len;
    query_len = h.query_len;
    fragment_len = h.fragment_len;
    has_authority = h.has_authority;
    has_query = h.has_query;
    has_fragment = h.has_fragment;
  }

  pub insert_authority-Holds : Holds (insert_authority t u) (record p { authority = some normal })
  unfolding insert_authority
  insert_authority-Holds = record {
    text =
        change-at (normalize_encoded_case 0) u.scheme_len (uint16 (length t)) _ p.scheme t _
          h.scheme_len (uint16_small (length t) small)
          (replace-at u.scheme_len u.authority_len u.text p.scheme (or_empty p.authority) _ t
            h.scheme_len h.authority_len h.text);
    authority_len = uint16_small (length t) small ∙ sym (length-normalize_encoded_case 0 t);
    has_authority = refl;
    scheme_len = h.scheme_len;
    path_len = h.path_len;
    query_len = h.query_len;
    fragment_len = h.fragment_len;
    has_query = h.has_query;
    has_fragment = h.has_fragment;
  }

  pub insert_path-Holds : Holds (insert_path t u) (record p { path = t })
  unfolding insert_path
  insert_path-Holds = record {
    text =
        replace-at _ u.path_len u.text _ p.path _ t (path_at u p h) h.path_len (path_text u p h)
        ∙ append_assoc p.scheme (or_empty p.authority) _;
    path_len = uint16_small (length t) small;
    scheme_len = h.scheme_len;
    authority_len = h.authority_len;
    query_len = h.query_len;
    fragment_len = h.fragment_len;
    has_authority = h.has_authority;
    has_query = h.has_query;
    has_fragment = h.has_fragment;
  }

  pub insert_query-Holds : Holds (insert_query t u) (record p { query = some normal })
  unfolding insert_query
  insert_query-Holds = record {
    text =
        change-at (normalize_encoded_case 0) _ (uint16 (length t)) _ _ t _ (query_at u p h)
          (uint16_small (length t) small)
          (replace-at _ u.query_len u.text _ (or_empty p.query) _ t (query_at u p h) h.query_len
            (query_text u p h))
        ∙ append_assoc (p.scheme ++ or_empty p.authority) p.path _
        ∙ append_assoc p.scheme (or_empty p.authority) _;
    query_len = uint16_small (length t) small ∙ sym (length-normalize_encoded_case 0 t);
    has_query = refl;
    scheme_len = h.scheme_len;
    authority_len = h.authority_len;
    path_len = h.path_len;
    fragment_len = h.fragment_len;
    has_authority = h.has_authority;
    has_fragment = h.has_fragment;
  }

  pub insert_fragment-Holds : Holds (insert_fragment t u) (record p { fragment = some normal })
  unfolding insert_fragment
  insert_fragment-Holds = record {
    text =
        change-at (normalize_encoded_case 0) _ (uint16 (length t)) _ _ t _ (fragment_at u p h)
          (uint16_small (length t) small)
          (replace-at _ u.fragment_len u.text _ (or_empty p.fragment) [] t (fragment_at u p h)
            h.fragment_len (fragment_text u p h))
        ∙ append_assoc ((p.scheme ++ or_empty p.authority) ++ p.path) (or_empty p.query) _
        ∙ append_assoc (p.scheme ++ or_empty p.authority) p.path _
        ∙ append_assoc p.scheme (or_empty p.authority) _
        ∙ ap (λ s. p.scheme ++ (or_empty p.authority ++ (p.path ++ (or_empty p.query ++ s))))
            (append-nil normal);
    fragment_len = uint16_small (length t) small ∙ sym (length-normalize_encoded_case 0 t);
    has_fragment = refl;
    scheme_len = h.scheme_len;
    authority_len = h.authority_len;
    path_len = h.path_len;
    query_len = h.query_len;
    has_authority = h.has_authority;
    has_query = h.has_query;
  }
