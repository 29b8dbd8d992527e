-- ===== src/Json/RoundTrip/Containers.antt =====
-- The fuel that a value's text takes, and how the parser's arrays and objects grow.
use lsp_framework_noec.Base.{
  ℕ, suc, ◌≡◌, refl, ap, false, Bytes, arith, ◌||◌, bytes_eq, bytes_eq_iff, bytes_eq_refl,
}
use lsp_framework_noec.Json.Value.{
  Value, Items, Fields, null, boolean, integer, decimal, string, nil, cons, end, field, push_back,
  set_back, items_append,
}
use lsp_framework_noec.Json.Object.{contains, subscript, assign}

-- The fuel for a value when `f` is to be left: one unit for each round.
module _ {D : Type 0} where
  unfoldable mutual
    pub need : Value D → ℕ → ℕ
    need null f = suc f
    need (boolean b) f = suc f
    need (integer n) f = suc f
    need (decimal d) f = suc f
    need (string s) f = suc f
    need (Value.array xs) f = suc (need_array xs f)
    need (Value.object fs) f = suc (need_object fs f)

    pub need_array : Items D → ℕ → ℕ
    need_array nil f = suc f
    need_array (cons x xs) f = suc (need x (need_items xs (suc f)))

    pub need_items : Items D → ℕ → ℕ
    need_items nil f = f
    need_items (cons x xs) f = suc (need x (need_items xs f))

    pub need_object : Fields D → ℕ → ℕ
    need_object end f = suc f
    need_object (field k v fs) f = suc (suc (need v (need_fields fs (suc f))))

    pub need_fields : Fields D → ℕ → ℕ
    need_fields end f = f
    need_fields (field k v fs) f = suc (suc (need v (need_fields fs f)))

  pub set_back-push_back :
      (xs : Items D) (v w : Value D) → set_back (push_back xs w) v ≡ push_back xs v
  unfolding set_back push_back
  set_back-push_back nil v w = refl
  set_back-push_back (cons x nil) v w = refl
  set_back-push_back (cons x (cons y ys)) v w = ap (cons x) (set_back-push_back (cons y ys) v w)

  pub items_append-push_back :
      (xs : Items D) (v : Value D) (ys : Items D)
      → items_append (push_back xs v) ys ≡ items_append xs (cons v ys)
  unfolding push_back
  items_append-push_back nil v ys = refl
  items_append-push_back (cons x xs) v ys = ap (cons x) (items_append-push_back xs v ys)

  abbrev pub fields_append : Fields D → Fields D → Fields D
  fields_append end gs = gs
  fields_append (field k v fs) gs = field k v (fields_append fs gs)

  -- Under a key that is not there yet, the slot is added at the end and then filled.
  pub assign-subscript :
      (k : Bytes) (v : Value D) (fs : Fields D)
      → contains k fs ≡ false
      → assign k v (subscript k fs) ≡ fields_append fs (field k v end)
  unfolding assign subscript contains
  assign-subscript k v end h = rw (bytes_eq_refl k)
  assign-subscript k v (field j w fs) h = ground (arith, assign-subscript k v fs)

  pub fields_append_assoc :
      (fs gs hs : Fields D)
      → fields_append (fields_append fs gs) hs ≡ fields_append fs (fields_append gs hs)
  fields_append_assoc end gs hs = refl
  fields_append_assoc (field k v fs) gs hs = ap (field k v) (fields_append_assoc fs gs hs)

  -- No key of the second object is in the first.
  abbrev pub Fresh : Fields D → Fields D → Type 0
  Fresh done end = Unit
  Fresh done (field k v fs) = (contains k done ≡ false) × Fresh done fs

  contains-fields_append :
      (k j : Bytes) (v : Value D) (fs : Fields D)
      → contains j (fields_append fs (field k v end)) ≡ (contains j fs || bytes_eq k j)
  unfolding contains
  contains-fields_append k j v end = ground arith
  contains-fields_append k j v (field i w fs) = ground (arith, contains-fields_append k j v fs)

  pub Fresh-fields_append :
      (done : Fields D) (k : Bytes) (v : Value D) (fs : Fields D)
      → Fresh done fs
      → contains k fs ≡ false
      → Fresh (fields_append done (field k v end)) fs
  unfolding contains
  Fresh-fields_append done k v end h n = tt
  Fresh-fields_append done k v (field j w fs) (hj, hs) n = (
    ground (arith, contains-fields_append k j v done, bytes_eq_iff k j, bytes_eq_iff j k),
    Fresh-fields_append done k v fs hs (ground arith),
  )

  pub Fresh-end : (fs : Fields D) → Fresh end fs
  unfolding contains
  Fresh-end end = tt
  Fresh-end (field k v fs) = (refl, Fresh-end fs)

  pub items_append-nil : (xs : Items D) → xs ≡ items_append xs nil
  items_append-nil nil = refl
  items_append-nil (cons x xs) = ap (cons x) (items_append-nil xs)

  pub fields_append-end : (fs : Fields D) → fs ≡ fields_append fs end
  fields_append-end end = refl
  fields_append-end (field k v fs) = ap (field k v) (fields_append-end fs)
