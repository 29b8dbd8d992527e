-- ===== src/Serialization/Numbers.antt =====
-- Integers of the widths that lsp/serialization.h has overloads for, on a platform whose `long` has
-- 64 bits.
use lsp_framework_noec.Base.{
  ℕ, ◌-◌, ◌%◌, ◌^◌, ◌<◌, ◌≡◌, Bool, true, ◌&&◌, ℤ, pos, negsuc, Fits, ltb, if◌then◌else◌, Outcome,
  ok, unexpected,
}
use lsp_framework_noec.Json.Value.{Value, integer, decimal, is_number}
use lsp_framework_noec.Json.Object.{TypeError, unexpected_value}
use lsp_framework_noec.Json.Floats.{Floats}
use lsp_framework_noec.Serialization.Serial.{Serial, value_of, map_ok}

-- The casts from `double` that `Floats` does not have. A double holds every integer of 54 bits
-- exactly.
pub record Casts (F : Floats) : Type 0 where
  -- `static_cast<unsigned int>`, `static_cast<long>`, `static_cast<unsigned long>`.
  pub to_unsigned : F.Double → ℕ
  pub to_long : F.Double → ℤ
  pub to_unsigned_long : F.Double → ℕ
  pub to_unsigned-of_int : (n : ℕ) → n < 2 ^ 32 → to_unsigned (F.of_int (pos n)) ≡ n
  pub to_long-of_int : (n : ℤ) → Fits 53 n → to_long (F.of_int n) ≡ n
  pub to_unsigned_long-of_int : (n : ℕ) → n < 2 ^ 53 → to_unsigned_long (F.of_int (pos n)) ≡ n

-- `static_cast<std::int32_t>` of an integer.
unfoldable pub wrap32 : ℤ → ℤ
wrap32 (pos n) = let m = n % 2 ^ 32 in if ltb m (2 ^ 31) then pos m else negsuc (2 ^ 32 - 1 - m)
wrap32 (negsuc n) = let m = n % 2 ^ 32 in if ltb m (2 ^ 31) then negsuc m else pos (2 ^ 32 - 1 - m)

-- `i <= std::numeric_limits<json::Integer>::max()`, and the other bound.
abbrev pub at_most_max : ℤ → Bool
at_most_max (pos n) = ltb n (2 ^ 31)
at_most_max (negsuc n) = true

abbrev pub at_least_min : ℤ → Bool
at_least_min (pos n) = true
at_least_min (negsuc n) = ltb n (2 ^ 31)

module _ (F : Floats) where
  open F use {Double, of_int, to_int}

  -- `Value::number()`.
  unfoldable pub number : Value Double → Outcome TypeError Double
  number (decimal d) = ok d
  number (integer n) = ok (of_int n)
  number _ = unexpected unexpected_value

  unfoldable pub to_json_int : ℤ → Value Double
  to_json_int n = integer n

  unfoldable pub to_json_unsigned : ℕ → Value Double
  to_json_unsigned n = if ltb n (2 ^ 31) then integer (pos n) else decimal (of_int (pos n))

  unfoldable pub to_json_long : ℤ → Value Double
  to_json_long n = if at_most_max n then integer (wrap32 n) else decimal (of_int n)

  unfoldable pub to_json_unsigned_long : ℕ → Value Double
  to_json_unsigned_long n = if ltb n (2 ^ 31) then integer (pos n) else decimal (of_int (pos n))

  unfoldable pub to_json_long_long : ℤ → Value Double
  to_json_long_long n =
      if at_least_min n && at_most_max n then integer (wrap32 n) else decimal (of_int n)

  unfoldable pub to_json_unsigned_long_long : ℕ → Value Double
  to_json_unsigned_long_long n =
      if ltb n (2 ^ 31) then integer (pos n) else decimal (of_int (pos n))

  -- `fromJson` on numbers, with the cast at the end.
  unfoldable pub from_json_number : {A : Type 0} → (Double → A) → Value Double → A → Outcome ⊥ A
  from_json_number cast json old = map_ok cast (value_of (number json))

  unfoldable pub serial_int : Serial Double ℤ
  serial_int = record {
    default = pos 0;
    to_json = to_json_int;
    from_json = from_json_number to_int;
    can_deserialize = is_number;
  }

  unfoldable pub serial_double : Double → Serial Double Double
  serial_double initial = record {
    default = initial;
    to_json = decimal;
    from_json = from_json_number (λ d. d);
    can_deserialize = is_number;
  }

module _ (F : Floats) (casts : Casts F) where
  open F use {Double, of_int}
  open casts use {to_unsigned, to_long, to_unsigned_long}

  unfoldable pub serial_unsigned : Serial Double ℕ
  serial_unsigned = record {
    default = 0;
    to_json = to_json_unsigned F;
    from_json = from_json_number F to_unsigned;
    can_deserialize = is_number;
  }

  unfoldable pub serial_long : Serial Double ℤ
  serial_long = record {
    default = pos 0;
    to_json = to_json_long F;
    from_json = from_json_number F to_long;
    can_deserialize = is_number;
  }

  unfoldable pub serial_unsigned_long : Serial Double ℕ
  serial_unsigned_long = record {
    default = 0;
    to_json = to_json_unsigned_long F;
    from_json = from_json_number F to_unsigned_long;
    can_deserialize = is_number;
  }
