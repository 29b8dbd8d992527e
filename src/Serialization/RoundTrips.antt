-- ===== src/Serialization/RoundTrips.antt =====
-- Values of the basic types in their JSON.
use lsp_framework_noec.Base.{
  ◌⊎◌, ltb, inl, inr, Bool-cases, ◌%◌, ℕ, ◌-◌, ◌^◌, ◌≤◌, ◌<◌, ◌≡◌, refl, ap, true, false, Bool,
  Bytes, ℤ, pos, negsuc, Fits, ok, arith,
}
use lsp_framework_noec.Json.Value.{integer}
use lsp_framework_noec.Json.Floats.{Floats}
use lsp_framework_noec.Serialization.Serial.{ComesBack}
use lsp_framework_noec.Serialization.Numbers.{
  Casts, wrap32, number, to_json_unsigned, to_json_long, from_json_number, to_json_int,
  at_least_min, serial_int, serial_unsigned, serial_long,
}
use lsp_framework_noec.Json.Value.{Fields}
use lsp_framework_noec.Uri.Record.{Uri}
use lsp_framework_noec.Serialization.Choices.{one, either, variant_from_json}
use lsp_framework_noec.Serialization.Scalars.{serial_bool, serial_string, serial_object, serial_uri}

pub serial_bool-ComesBack : {D : Type 0} (b : Bool) → ComesBack (serial_bool {D = D}) b
unfolding serial_bool
serial_bool-ComesBack b = record { recognised = refl; read_back = refl }

pub serial_string-ComesBack : {D : Type 0} (s : Bytes) → ComesBack (serial_string {D = D}) s
unfolding serial_string
serial_string-ComesBack s = record { recognised = refl; read_back = refl }

module _ (F : Floats) where
  pub serial_int-ComesBack : (n : ℤ) → Fits 31 n → ComesBack (serial_int F) n
  unfolding serial_int to_json_int from_json_number number
  serial_int-ComesBack n h = record { recognised = refl; read_back = ap ok (F.to_int-of_int n h) }

module _ (F : Floats) (casts : Casts F) where
  -- An `unsigned int` comes back from its JSON, an integer there up to 2^31 - 1 and a decimal above.
  pub serial_unsigned-ComesBack : (n : ℕ) → n < 2 ^ 32 → ComesBack (serial_unsigned F casts) n
  unfolding serial_unsigned to_json_unsigned from_json_number number
  serial_unsigned-ComesBack n h = elim (Bool-cases (ltb n (2 ^ 31))) [
    | inl e ↦ record { recognised = simp (e); read_back = simp (e, casts.to_unsigned-of_int n h) }
    | inr e ↦ record { recognised = simp (e); read_back = simp (e, casts.to_unsigned-of_int n h) }
  ]

  mod_word : (n : ℕ) → n < 2 ^ 32 → n % 2 ^ 32 ≡ n
  mod_word n h = omega arith

  -- A `long` from -2^31 up to 2^53 - 1 comes back from its JSON.
  pub serial_long-ComesBack :
      (n : ℤ) → Fits 53 n → at_least_min n ≡ true → ComesBack (serial_long F casts) n
  unfolding serial_long to_json_long from_json_number number wrap32
  serial_long-ComesBack (pos n) h low = elim (Bool-cases (ltb n (2 ^ 31))) [
    | inl e ↦
        let small : n < 2 ^ 32 = ground (arith, e) in
        record {
          recognised = simp (e);
          read_back = simp (e, mod_word n small, casts.to_long-of_int (pos n) h);
        }
    | inr e ↦ record { recognised = simp (e); read_back = simp (e, casts.to_long-of_int (pos n) h) }
  ]
  serial_long-ComesBack (negsuc n) h low =
      let small : n < 2 ^ 32 = ground (arith, low) in
      record {
        recognised = refl;
        read_back = simp (low, mod_word n small, casts.to_long-of_int (negsuc n) h);
      }

  -- A `long` from -2^32 up to -2^31 - 1 is written as an integer that is not negative, the number
  -- of its last 32 bits (0 for -2^32), and is read back as that number.
  pub serial_long_below :
      (n : ℕ) (old : ℤ)
      → 2 ^ 31 ≤ n
      → n < 2 ^ 32
      → (to_json_long F (negsuc n) ≡ integer (pos (2 ^ 32 - 1 - n)))
        × (from_json_number F casts.to_long (to_json_long F (negsuc n)) old
            ≡ ok (pos (2 ^ 32 - 1 - n)))
  unfolding to_json_long from_json_number number wrap32
  serial_long_below n old low high =
      let big : ltb n (2 ^ 31) ≡ false = ground arith in
      let fits : Fits 53 (pos (2 ^ 32 - 1 - n)) = omega arith in
      (
        simp (mod_word n high, big),
        simp (mod_word n high, big, casts.to_long-of_int (pos (2 ^ 32 - 1 - n)) fits),
      )

-- A variant of an object and a URI is not changed by the JSON of a URI, which neither alternative
-- takes.
pub variant_from_json_uri :
    {D : Type 0} (u : Uri) (old : Fields D ⊎ Uri)
    → variant_from_json (either serial_object (one serial_uri)) ((serial_uri {D = D}).to_json u) old
      ≡ ok old
unfolding variant_from_json either one serial_object serial_uri
variant_from_json_uri u old = refl
