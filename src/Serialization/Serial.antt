-- ===== src/Serialization/Serial.antt =====
-- The overloads for one type, as an interface that the templates are instances of.
use lsp_framework_noec.Base.{◌≡◌, Bool, true, Outcome, ok, unexpected, terminate, out_of_fuel}
use lsp_framework_noec.Json.Value.{Value}

pub record Serial (D T : Type 0) : Type 0 where
  -- `T()`.
  pub default : T
  pub to_json : T → Value D
  -- `fromJson(json, value)`: the value before the call, and behind it.
  pub from_json : Value D → T → Outcome ⊥ T
  -- `canDeserializeTypeFromJson<T>`.
  pub can_deserialize : Value D → Bool

-- A value that is recognised in its JSON and comes back from it.
pub record ComesBack {D T : Type 0} (s : Serial D T) (x : T) : Type 0 where
  pub recognised : s.can_deserialize (s.to_json x) ≡ true
  pub read_back : s.from_json (s.to_json x) s.default ≡ ok x

-- `value()` of an expected value, which throws where there is none.
abbrev pub value_of : {E A : Type 0} → Outcome E A → Outcome ⊥ A
value_of (ok a) = ok a
value_of (unexpected e) = terminate
value_of terminate = terminate
value_of out_of_fuel = out_of_fuel

abbrev pub map_ok : {A B : Type 0} → (A → B) → Outcome ⊥ A → Outcome ⊥ B
map_ok f (ok a) = ok (f a)
map_ok f (unexpected e) = unexpected e
map_ok f terminate = terminate
map_ok f out_of_fuel = out_of_fuel
