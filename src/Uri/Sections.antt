-- ===== src/Uri/Sections.antt =====
-- The parts of a `Uri` as an abstract value: the string that holds them one behind the other, with
-- its lengths, implements it.
use lsp_framework_noec.Base.{
  ℕ, zero, suc, ◌+◌, ◌≡◌, refl, ap, sym, ◌∙◌, Bool, true, false, Option, none, some, [], ◌∷◌, ◌++◌,
  append_assoc, append-nil, Bytes, length, length-append, take-length_append, drop-length_append,
}
use lsp_framework_noec.Uri.Coding.{normalize_encoded_case}
use lsp_framework_noec.Uri.Record.{Uri, substr, replace, change, lower_all}

-- The five parts; three of them may be absent.
pub record Parts : Type 0 where
  pub scheme : Bytes
  pub authority : Option Bytes
  pub path : Bytes
  pub query : Option Bytes
  pub fragment : Option Bytes

abbrev pub or_empty : Option Bytes → Bytes
or_empty none = []
or_empty (some s) = s

abbrev pub is_present : Option Bytes → Bool
is_present none = false
is_present (some s) = true

abbrev pub joined : Parts → Bytes
joined p =
    p.scheme ++ (or_empty p.authority ++ (p.path ++ (or_empty p.query ++ or_empty p.fragment)))

-- The string of a `Uri` holds the parts, and its lengths and flags are theirs.
pub record Holds (u : Uri) (p : Parts) : Type 0 where
  pub text : u.text ≡ joined p
  pub scheme_len : u.scheme_len ≡ length p.scheme
  pub authority_len : u.authority_len ≡ length (or_empty p.authority)
  pub path_len : u.path_len ≡ length p.path
  pub query_len : u.query_len ≡ length (or_empty p.query)
  pub fragment_len : u.fragment_len ≡ length (or_empty p.fragment)
  pub has_authority : u.has_authority ≡ is_present p.authority
  pub has_query : u.has_query ≡ is_present p.query
  pub has_fragment : u.has_fragment ≡ is_present p.fragment

-- Taking out and replacing what stands between two texts.
pub substr-middle : (a b c : Bytes) → substr (length a) (length b) (a ++ (b ++ c)) ≡ b
substr-middle a b c = rw (drop-length_append a (b ++ c)) (take-length_append b c)

pub replace-middle :
    (a b c t : Bytes) → replace (length a) (length b) t (a ++ (b ++ c)) ≡ a ++ (t ++ c)
replace-middle a b c t =
    rw (take-length_append a (b ++ c), drop-length_append a (b ++ c), drop-length_append b c) refl

pub change-middle :
    (f : Bytes → Bytes) (a b c : Bytes)
    → change (length a) (length b) f (a ++ (b ++ c)) ≡ a ++ (f b ++ c)
change-middle f a b c =
    rw
      (
        take-length_append a (b ++ c),
        drop-length_append a (b ++ c),
        drop-length_append b c,
        take-length_append b c,
      )
      refl

pub length-lower_all : (s : Bytes) → length (lower_all s) ≡ length s
length-lower_all [] = refl
length-lower_all (c ∷ s) = ap suc (length-lower_all s)

pub length-normalize_encoded_case :
    (k : ℕ) (s : Bytes) → length (normalize_encoded_case k s) ≡ length s
unfolding normalize_encoded_case
length-normalize_encoded_case k [] = refl
length-normalize_encoded_case zero (c ∷ s) = ap suc (length-normalize_encoded_case _ s)
length-normalize_encoded_case (suc k) (c ∷ s) = ap suc (length-normalize_encoded_case k s)

-- Where each part starts, and the string with that part in the middle.
module _ (u : Uri) (p : Parts) (h : Holds u p) where
  abbrev before_path : Bytes
  before_path = p.scheme ++ or_empty p.authority

  abbrev before_query : Bytes
  before_query = before_path ++ p.path

  abbrev before_fragment : Bytes
  before_fragment = before_query ++ or_empty p.query

  pub path_at : u.scheme_len + u.authority_len ≡ length before_path
  path_at = rw (h.scheme_len, h.authority_len) (sym (length-append p.scheme (or_empty p.authority)))

  pub query_at : u.scheme_len + u.authority_len + u.path_len ≡ length before_query
  query_at = rw (path_at, h.path_len) (sym (length-append before_path p.path))

  pub fragment_at :
      u.scheme_len + u.authority_len + u.path_len + u.query_len ≡ length before_fragment
  fragment_at = rw (query_at, h.query_len) (sym (length-append before_query (or_empty p.query)))

  pub path_text : u.text ≡ before_path ++ (p.path ++ (or_empty p.query ++ or_empty p.fragment))
  path_text = h.text ∙ sym (append_assoc p.scheme (or_empty p.authority) _)

  pub query_text : u.text ≡ before_query ++ (or_empty p.query ++ or_empty p.fragment)
  query_text = path_text ∙ sym (append_assoc before_path p.path _)

  pub fragment_text : u.text ≡ before_fragment ++ (or_empty p.fragment ++ [])
  fragment_text =
      query_text
      ∙ sym (append_assoc before_query (or_empty p.query) (or_empty p.fragment))
      ∙ ap (λ s. before_fragment ++ s) (sym (append-nil (or_empty p.fragment)))
