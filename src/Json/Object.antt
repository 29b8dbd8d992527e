-- ===== src/Json/Object.antt =====
-- The operations of `json::Object` in lsp/json/json.cpp.
pub mod Laws
use lsp_framework_noec.Base.{
  ℕ, suc, Bool, true, false, not, ◌||◌, Option, none, some, Bytes, bytes_eq, if◌then◌else◌, Outcome,
  ok, unexpected,
}
use lsp_framework_noec.Json.Value.{Value, Fields, null, end, field}

-- `json::TypeError`.
pub data TypeError : Type 0 where
  unexpected_value : TypeError
  missing_key : Bytes → TypeError

module _ {D : Type 0} where
  abbrev pub size : Fields D → ℕ
  size end = 0
  size (field k v fs) = suc (size fs)

  abbrev pub empty : Fields D → Bool
  empty end = true
  empty (field k v fs) = false

  unfoldable pub find : Bytes → Fields D → Option (Value D)
  find key end = none
  find key (field k v fs) = if bytes_eq k key then some v else find key fs

  unfoldable pub contains : Bytes → Fields D → Bool
  contains key end = false
  contains key (field k v fs) = bytes_eq k key || contains key fs

  unfoldable pub get : Bytes → Fields D → Outcome TypeError (Value D)
  get key fs = elim (find key fs) [ none ↦ unexpected (missing_key key) | some v ↦ ok v ]

  -- The object after `object[key] = v`.
  unfoldable pub assign : Bytes → Value D → Fields D → Fields D
  assign key v end = field key v end
  assign key v (field k w fs) = if bytes_eq k key then field k v fs else field k w (assign key v fs)

  -- The object after a mere `object[key]`, which adds a null under a missing key.
  unfoldable pub subscript : Bytes → Fields D → Fields D
  subscript key end = field key null end
  subscript key (field k w fs) =
      if bytes_eq k key then field k w fs else field k w (subscript key fs)
