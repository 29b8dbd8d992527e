-- ===== src/MessageHandler/Ids.antt =====
-- Message ids: `nextUniqueRequestId` of lsp/messagehandler.cpp, and the equality of two ids.
use lsp_framework_noec.Base.{
  int_eq, ℕ, zero, suc, ◌+◌, ◌-◌, ◌%◌, ◌^◌, ◌<◌, ◌≡◌, ◌≢◌, ◌↔◌, refl, ap, Bool, true, false, ℤ, pos,
  negsuc, ◌==◌, if◌then◌else◌, bytes_eq, bytes_eq_iff, arith, Fits, Key,
}
use lsp_framework_noec.Jsonrpc.{MessageId, null, integer, string}

unfoldable pub id_eq : MessageId → MessageId → Bool
unfolding int_eq
id_eq null null = true
id_eq (integer a) (integer b) = int_eq a b
id_eq (string a) (string b) = bytes_eq a b
id_eq _ _ = false

int_eq_iff : (a b : ℤ) → (int_eq a b ≡ true) ↔ (a ≡ b)
unfolding int_eq
int_eq_iff (pos a) (pos b) = ground arith
int_eq_iff (negsuc a) (negsuc b) = ground arith
int_eq_iff (pos a) (negsuc b) = ground arith
int_eq_iff (negsuc a) (pos b) = ground arith

pub id_eq_iff : (a b : MessageId) → (id_eq a b ≡ true) ↔ (a ≡ b)
unfolding id_eq
id_eq_iff null null = ground arith
id_eq_iff null (integer b) = ground arith
id_eq_iff null (string b) = ground arith
id_eq_iff (integer a) null = ground arith
id_eq_iff (integer a) (integer b) = ground (arith, int_eq_iff a b)
id_eq_iff (integer a) (string b) = ground arith
id_eq_iff (string a) null = ground arith
id_eq_iff (string a) (integer b) = ground arith
id_eq_iff (string a) (string b) = ground (arith, bytes_eq_iff a b)

instance abbrev pub id_key : Key MessageId
id_key = record { key_eq = id_eq; key_eq_iff = id_eq_iff }

-- `++` on `std::atomic<std::int32_t>`, which wraps around.
unfoldable pub increment : ℤ → ℤ
increment (pos n) = if n == 2 ^ 31 - 1 then negsuc (2 ^ 31 - 1) else pos (n + 1)
increment (negsuc zero) = pos 0
increment (negsuc (suc n)) = negsuc n

-- The counter after `k` more ids.
abbrev pub increment_by : ℕ → ℤ → ℤ
increment_by zero n = n
increment_by (suc k) n = increment (increment_by k n)

-- The 32 bits of an integer, as a number.
abbrev pub word : ℤ → ℕ
word (pos n) = n
word (negsuc n) = 2 ^ 32 - 1 - n

increment-Fits : (n : ℤ) → Fits 31 n → Fits 31 (increment n)
unfolding increment
increment-Fits (pos n) h = ground arith
increment-Fits (negsuc zero) h = omega arith
increment-Fits (negsuc (suc n)) h = omega arith

word-increment : (n : ℤ) → Fits 31 n → word (increment n) ≡ (word n + 1) % 2 ^ 32
unfolding increment
word-increment (pos n) h = ground arith
word-increment (negsuc zero) h = refl
word-increment (negsuc (suc n)) h = omega arith

pub increment_by-Fits : (k : ℕ) (n : ℤ) → Fits 31 n → Fits 31 (increment_by k n)
increment_by-Fits zero n h = h
increment_by-Fits (suc k) n h = increment-Fits (increment_by k n) (increment_by-Fits k n h)

word-increment_by : (k : ℕ) (n : ℤ) → Fits 31 n → word (increment_by k n) ≡ (word n + k) % 2 ^ 32
word-increment_by zero (pos n) h = omega arith
word-increment_by zero (negsuc n) h = omega arith
word-increment_by (suc k) n h =
    omega
      (arith, word-increment (increment_by k n) (increment_by-Fits k n h), word-increment_by k n h)

-- Ids that are handed out are distinct, if the one comes after the other by fewer than 2 ^ 32 ids, so
-- that fewer than 2 ^ 32 - 1 stand between them.
pub increment_by-ne :
    (j k : ℕ) (n : ℤ)
    → Fits 31 n
    → j < k
    → k - j < 2 ^ 32
    → integer (increment_by j n) ≢ integer (increment_by k n)
increment_by-ne j k n h less near e =
    let equal : increment_by j n ≡ increment_by k n = cc e in
    let same : word (increment_by j n) ≡ word (increment_by k n) = ap word equal in
    omega (arith, word-increment_by j n h, word-increment_by k n h)
