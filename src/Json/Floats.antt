-- ===== src/Json/Floats.antt =====
-- `double` and the functions on it that the sources call. Floating point is no part of the sources;
-- the one law is exactness on 32-bit integers, which IEEE 754 doubles have.
use lsp_framework_noec.Base.{ℕ, ◌≡◌, Option, Bytes, ℤ, Fits}

pub record Floats : Type 1 where
  pub Double : Type 0
  -- `std::stod`: the value and `idx`; `none` where it throws.
  pub stod : Bytes → Option (Double × ℕ)
  -- `std::to_string(double)`.
  pub to_string : Double → Bytes
  -- `static_cast<double>` of an integer.
  pub of_int : ℤ → Double
  -- `static_cast<std::int32_t>` of a double.
  pub to_int : Double → ℤ
  pub to_int-of_int : (n : ℤ) → Fits 31 n → to_int (of_int n) ≡ n
