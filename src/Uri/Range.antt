-- ===== src/Uri/Range.antt =====
-- The positions at which `Uri` calls `std::string::replace` and `substr` stand within its string,
-- whatever the 16 bits of the lengths lose.
use lsp_framework_noec.Base.{
  length-drop, ℕ, zero, suc, ◌+◌, ◌-◌, ◌≤◌, ◌≡◌, refl, ap, ◌∙◌, Bool, true, false, List, [], ◌∷◌,
  ◌++◌, Bytes, length, take, drop, length-append, arith, if◌then◌else◌,
}
use lsp_framework_noec.Uri.Coding.{normalize_encoded_case}
use lsp_framework_noec.Uri.Record.{
  Uri, uint16, replace, change, lower_all, insert_scheme, insert_authority, insert_path,
  insert_query, insert_fragment, set_scheme, set_authority, set_path, set_query, set_fragment,
  remove_authority, remove_query, remove_fragment,
}
use lsp_framework_noec.Uri.Sections.{length-lower_all, length-normalize_encoded_case}
use lsp_framework_noec.Uri.Calls.{
  Edit, scheme, authority, path, query, fragment, no_authority, no_query, no_fragment, apply,
  apply_all,
}

-- The five lengths together reach no further than the string.
abbrev pub InRange : Uri → Type 0
InRange u =
    u.scheme_len + u.authority_len + u.path_len + u.query_len + u.fragment_len ≤ length u.text

length-take : (n : ℕ) (s : Bytes) → n ≤ length s → length (take n s) ≡ n
length-take zero s h = refl
length-take (suc n) [] h = absurd (omega arith)
length-take (suc n) (c ∷ s) h = ap suc (length-take n s (omega arith))

length-replace :
    (at count : ℕ) (t s : Bytes)
    → at + count ≤ length s
    → length (replace at count t s) ≡ length s - count + length t
length-replace at count t s h =
    let a = length-append (take at s) (t ++ drop count (drop at s)) in
    let b = length-append t (drop count (drop at s)) in
    let c = length-take at s (omega arith) in
    let d = length-drop count (drop at s) in let e = length-drop at s in omega arith

length-change :
    (f : Bytes → Bytes) (at count : ℕ) (s : Bytes)
    → ((t : Bytes) → length (f t) ≡ length t)
    → at + count ≤ length s
    → length (change at count f s) ≡ length s
length-change f at count s same h =
    let a = length-append (take at s) (f (take count (drop at s)) ++ drop count (drop at s)) in
    let b = length-append (f (take count (drop at s))) (drop count (drop at s)) in
    let c = length-take at s (omega arith) in
    let d = length-drop count (drop at s) in
    let e = length-drop at s in
    let g = same (take count (drop at s)) in
    let i = length-take count (drop at s) (omega arith) in omega arith

-- A replaced part, and the change to it, by length.
length-insert :
    (f : Bytes → Bytes) (at count : ℕ) (t s : Bytes)
    → ((t : Bytes) → length (f t) ≡ length t)
    → at + count ≤ length s
    → length (change at (uint16 (length t)) f (replace at count t s)) ≡ length s - count + length t
length-insert f at count t s same h =
    let e = length-replace at count t s h in
    length-change f at (uint16 (length t)) (replace at count t s) same (omega arith) ∙ e

module _ (t : Bytes) (u : Uri) (h : InRange u) where
  insert_scheme-InRange : InRange (insert_scheme t u)
  unfolding insert_scheme
  insert_scheme-InRange =
      let e = length-insert lower_all 0 u.scheme_len t u.text length-lower_all (omega arith) in
      omega arith

  insert_authority-InRange : InRange (insert_authority t u)
  unfolding insert_authority
  insert_authority-InRange =
      let e =
        length-insert (normalize_encoded_case 0) u.scheme_len u.authority_len t u.text
          (length-normalize_encoded_case 0) (omega arith) in
      omega arith

  insert_path-InRange : InRange (insert_path t u)
  unfolding insert_path
  insert_path-InRange =
      let e = length-replace (u.scheme_len + u.authority_len) u.path_len t u.text (omega arith) in
      omega arith

  insert_query-InRange : InRange (insert_query t u)
  unfolding insert_query
  insert_query-InRange =
      let e =
        length-insert (normalize_encoded_case 0) (u.scheme_len + u.authority_len + u.path_len)
          u.query_len t u.text (length-normalize_encoded_case 0) (omega arith) in
      omega arith

  insert_fragment-InRange : InRange (insert_fragment t u)
  unfolding insert_fragment
  insert_fragment-InRange =
      let e =
        length-insert (normalize_encoded_case 0)
          (u.scheme_len + u.authority_len + u.path_len + u.query_len) u.fragment_len t u.text
          (length-normalize_encoded_case 0) (omega arith) in
      omega arith

guarded-InRange :
    (b : Bool) (u v : Uri)
    → InRange u
    → InRange v
    → InRange (if◌then◌else◌ {A = Bool × Uri} b (true, v) (false, u)).1
guarded-InRange true u v h k = k
guarded-InRange false u v h k = h

apply-InRange : (e : Edit) (u : Uri) → InRange u → InRange (apply e u)
unfolding apply set_scheme set_authority set_path set_query set_fragment remove_authority
    remove_query remove_fragment
apply-InRange (scheme t) u h = guarded-InRange _ u _ h (insert_scheme-InRange t u h)
apply-InRange (authority t) u h = guarded-InRange _ u _ h (insert_authority-InRange t u h)
apply-InRange (path t) u h = insert_path-InRange t u h
apply-InRange (query t) u h = guarded-InRange _ u _ h (insert_query-InRange t u h)
apply-InRange (fragment t) u h = insert_fragment-InRange t u h
apply-InRange no_authority u h = insert_authority-InRange [] u h
apply-InRange no_query u h = insert_query-InRange [] u h
apply-InRange no_fragment u h = insert_fragment-InRange [] u h

-- The five lengths of a `Uri` together reach no further than its string, after any calls of the setters
-- and of `remove*` with texts of any length, if they did so before.
pub apply_all-InRange : (es : List Edit) (u : Uri) → InRange u → InRange (apply_all es u)
apply_all-InRange [] u h = h
apply_all-InRange (e ∷ es) u h = apply_all-InRange es (apply e u) (apply-InRange e u h)
