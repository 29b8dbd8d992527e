-- ===== src/Base/Maps.antt =====
-- Maps as association lists, over a type of keys with a Boolean equality.
use mathlib.Core.Path.{◌≡◌, refl}
use mathlib.Core.Logic.{◌↔◌}
use mathlib.Core.Bool.{Bool, true}
use mathlib.Core.Option.{Option, none, some}
use mathlib.Core.List.{List, [], ◌∷◌}
use native.Mathlib.Omega.{arith}
use lsp_framework_noec.Base.Tests.{if◌then◌else◌}
use lsp_framework_noec.Base.Lists.{Bytes, bytes_eq, bytes_eq_iff}

pub record Key (A : Type 0) : Type 0 where
  pub key_eq : A → A → Bool
  pub key_eq_iff : (a b : A) → (key_eq a b ≡ true) ↔ (a ≡ b)

instance abbrev pub bytes_key : Key Bytes
bytes_key = record { key_eq = bytes_eq; key_eq_iff = bytes_eq_iff }

module _ {A B : Type 0} ⦃k : Key A⦄ where
  abbrev pub lookup : A → List (A × B) → Option B
  lookup a [] = none
  lookup a ((c, b) ∷ m) = if k.key_eq c a then some b else lookup a m

  -- `m[a] = b`.
  abbrev pub insert : A → B → List (A × B) → List (A × B)
  insert a b [] = (a, b) ∷ []
  insert a b ((c, d) ∷ m) =
      let rest = insert a b m in if k.key_eq c a then (a, b) ∷ m else (c, d) ∷ rest

  abbrev pub erase : A → List (A × B) → List (A × B)
  erase a [] = []
  erase a ((c, d) ∷ m) = let rest = erase a m in if k.key_eq c a then rest else (c, d) ∷ rest

  pub lookup-insert :
      (a j : A) (b : B) (m : List (A × B))
      → lookup j (insert a b m) ≡ (if k.key_eq a j then some b else lookup j m)
  lookup-insert a j b [] = refl
  lookup-insert a j b ((c, d) ∷ m) =
      ground (arith, k.key_eq_iff c a, k.key_eq_iff c j, k.key_eq_iff a j, lookup-insert a j b m)

  pub lookup-erase :
      (a j : A) (m : List (A × B))
      → lookup j (erase a m) ≡ (if k.key_eq a j then none else lookup j m)
  lookup-erase a j [] = ground arith
  lookup-erase a j ((c, d) ∷ m) =
      ground (arith, k.key_eq_iff c a, k.key_eq_iff c j, k.key_eq_iff a j, lookup-erase a j m)
