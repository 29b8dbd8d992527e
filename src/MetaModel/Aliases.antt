-- ===== src/MetaModel/Aliases.antt =====
-- The names that messages have for their types.
use lsp_framework_noec.Base.{
  ◌≡◌, refl, sym, ap, ◌∙◌, true, false, List, [], ◌∷◌, ◌++◌, none, some, Bytes, codes, bytes_eq,
  bytes_eq_iff, bytes_key, lookup, Outcome, ok, unexpected, terminate, out_of_fuel, ◌>>=◌, arith,
  inl, inr, Option-cases, Bool-cases, length,
}
use lsp_framework_noec.Json.Value.{Fields}
use lsp_framework_noec.Json.Object.{contains}
use lsp_framework_noec.Json.Floats.{Floats}
use lsp_framework_noec.MetaModel.Extract.{
  text_member, object_member, extract_documentation, create_from_json,
}
use lsp_framework_noec.MetaModel.Model.{
  TypeIndex, type_alias_at, Model, TypeAlias, insert_type, add_type_alias, type_for_name,
  capitalize_string,
}
use lsp_framework_noec.MetaModel.Reading.{member_alias, add_member_alias}
use lsp_framework_noec.MetaModel.Names.{insert_type-old, insert_type-new}
use lsp_framework_noec.MetaModel.Messages.{member_type_name}

bind_ok :
    {A B : Type 0} (m : Outcome ⊥ A) (f : A → Outcome ⊥ B) (b : B)
    → (m >>= f) ≡ ok b
    → (a : A) × (m ≡ ok a) × (f a ≡ ok b)
bind_ok (ok a) f b e = (a, refl, e)
bind_ok (unexpected x) f b e = absurd x
bind_ok terminate f b e = absurd (cc e)
bind_ok out_of_fuel f b e = absurd (cc e)

lookup-append_new :
    (k : Bytes) (i : TypeIndex) (m : List (Bytes × TypeIndex))
    → lookup k m ≡ none
    → lookup k (m ++ (k, i) ∷ []) ≡ some i
lookup-append_new k i [] e = rw ((bytes_eq_iff k k).1 refl) refl
lookup-append_new k i ((c, j) ∷ m) e = elim (Bool-cases (bytes_eq c k)) [
  | inl y ↦ absurd (ground (arith, y, e))
  | inr n ↦
      let rest : lookup k m ≡ none = ground (arith, n, e) in rw n (lookup-append_new k i m rest)
]

insert_type-type_for_name :
    {D : Type 0} (name : Bytes) (index : TypeIndex) (m : Model D)
    → (i : TypeIndex) × (type_for_name name (insert_type name index m) ≡ some i)
unfolding type_for_name
insert_type-type_for_name name index m = elim (Option-cases (lookup name m.types_by_name)) [
  | inr (other, e) ↦
      (other, ap (λ n. lookup name n.types_by_name) (insert_type-old name index other m e) ∙ e)
  | inl e ↦ (
    index,
    ap (λ n. lookup name n.types_by_name) (insert_type-new name index m e)
        ∙ lookup-append_new name index m.types_by_name e,
  )
]

module _ (F : Floats) where
  open F use {Double}

  member_alias-type_for_name :
      (ty : Fields Double) (key method : Bytes) (m n : Model Double)
      → member_alias F ty key method m ≡ ok n
      → (i : TypeIndex) × (type_for_name (method ++ capitalize_string key) n ≡ some i)
  unfolding add_type_alias
  member_alias-type_for_name ty key method m n run =
      let (t, _, run1) = bind_ok (create_from_json F ty) _ n run in
      let (d, _, run2) = bind_ok (extract_documentation ty) _ n run1 in
      let name = method ++ capitalize_string key in
      let alias : TypeAlias = record { name = name; type = t; documentation = d } in
      let same : add_type_alias alias m ≡ n = cc run2 in
      let grown : Model Double = record m { type_aliases = m.type_aliases ++ alias ∷ [] } in
      let (i, found) =
        insert_type-type_for_name name (type_alias_at (length m.type_aliases)) grown in
      (i, ap (type_for_name name) (sym same) ∙ found)

  -- A member of a message whose type is no reference: after `addTypeAlias` for it, which returns, the
  -- name that the message has for the member's type is the name of a type of the model.
  pub member_type_name-type_for_name :
      (fs ty : Fields Double) (key method kind : Bytes) (m n : Model Double)
      → contains key fs ≡ true
      → object_member key fs ≡ ok ty
      → text_member (codes "kind") ty ≡ ok kind
      → bytes_eq kind (codes "reference") ≡ false
      → text_member (codes "method") fs ≡ ok method
      → add_member_alias F fs key method m ≡ ok n
      → (name : Bytes) × (member_type_name fs key ≡ ok name)
        × ((i : TypeIndex) × (type_for_name name n ≡ some i))
  unfolding member_type_name add_member_alias
  member_type_name-type_for_name fs ty key method kind m n here typed kinded other named run =
      let made : add_member_alias F fs key method m ≡ member_alias F ty key method m =
        rw here (rw typed (rw kinded (rw other refl))) in
      (
        method ++ capitalize_string key,
        rw here (rw typed (rw kinded (rw other (rw named refl)))),
        member_alias-type_for_name ty key method m n (sym made ∙ run),
      )
