-- ===== src/Base/Outcomes.antt =====
-- What a call can come to: a value, an error value (`std::unexpected`), the end of the process
-- (`std::terminate`, an uncaught exception or a bad `std::expected` access), or no end within the
-- fuel that a loop was given.

pub data Outcome {ℓ} (E A : Type ℓ) : Type ℓ where
  ok : A → Outcome E A
  unexpected : E → Outcome E A
  terminate : Outcome E A
  out_of_fuel : Outcome E A

infixl 5 ◌>>=◌
abbrev pub ◌>>=◌ {ℓ} : {E A B : Type ℓ} → Outcome E A → (A → Outcome E B) → Outcome E B
ok a >>= f = f a
unexpected e >>= f = unexpected e
terminate >>= f = terminate
out_of_fuel >>= f = out_of_fuel
