-- ===== src/Json/Object/Laws.antt =====
-- `json::Object` is a finite map: lookups after writes.
use lsp_framework_noec.Base.{
  ◌≡◌, refl, true, false, none, some, Bytes, bytes_eq, bytes_eq_iff, if◌then◌else◌, arith,
}
use lsp_framework_noec.Json.Value.{Value, Fields, null, end, field}
use lsp_framework_noec.Json.Object.{find, contains, assign, subscript}

module _ {D : Type 0} where
  -- After a write to a key, a lookup of that key finds the written value, and a lookup of any other
  -- key finds what it found before.
  pub find-assign :
      (k j : Bytes) (v : Value D) (fs : Fields D)
      → find j (assign k v fs) ≡ (if bytes_eq k j then some v else find j fs)
  unfolding find assign
  find-assign k j v end = refl
  find-assign k j v (field i w fs) =
      ground (arith, bytes_eq_iff k j, bytes_eq_iff i k, bytes_eq_iff i j, find-assign k j v fs)

  pub find-subscript :
      (k j : Bytes) (fs : Fields D)
      → find j (subscript k fs)
        ≡ elim (find j fs) [ none ↦ (if bytes_eq k j then some null else none) | some v ↦ some v ]
  unfolding find subscript
  find-subscript k j end = ground arith
  find-subscript k j (field i w fs) =
      ground (arith, bytes_eq_iff k j, bytes_eq_iff i k, bytes_eq_iff i j, find-subscript k j fs)

  pub contains-find :
      (j : Bytes) (fs : Fields D)
      → contains j fs ≡ elim (find j fs) [ none ↦ false | some v ↦ true ]
  unfolding find contains
  contains-find j end = refl
  contains-find j (field i w fs) = ground (arith, contains-find j fs)

  pub contains-assign :
      (k j : Bytes) (v : Value D) (fs : Fields D)
      → contains j (assign k v fs) ≡ (if bytes_eq k j then true else contains j fs)
  contains-assign k j v fs =
      ground (arith, contains-find j (assign k v fs), contains-find j fs, find-assign k j v fs)
