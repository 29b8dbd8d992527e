-- ===== src/Socket/Whole.antt =====
-- What a call of `Socket::write` has sent when it returns.
use lsp_framework_noec.Base.{
  inl, inr, ℕ, zero, suc, ◌+◌, ◌-◌, ◌≤◌, ◌<◌, ◌≡◌, refl, sym, ap, ◌∙◌, List, true, Bytes, [], ◌∷◌,
  ◌++◌, append_assoc, append-nil, length, take, drop, ltb, ◌==◌, ok, unexpected, terminate,
  out_of_fuel, Bool-cases, arith,
}
use lsp_framework_noec.Socket.Transfer.{
  Sent, sent, send_interrupted, send_failed, Channel, IsLawful, send_error, size_type, Call,
  sent_bytes, write_loop, write,
}

module _ {A : Type 0} where
  length-take-drop : (m n : ℕ) (xs : List A) → m + n ≤ length xs → length (take m (drop n xs)) ≡ m
  length-take-drop zero zero xs h = refl
  length-take-drop (suc m) zero [] h = absurd (omega (arith, h))
  length-take-drop (suc m) zero (x ∷ xs) h = ap suc (length-take-drop m 0 xs (omega (arith, h)))
  length-take-drop zero (suc n) [] h = refl
  length-take-drop (suc m) (suc n) [] h = absurd (omega (arith, h))
  length-take-drop m (suc n) (x ∷ xs) h = length-take-drop m n xs (omega (arith, h))

  take-take : (k m : ℕ) (xs : List A) → k ≤ m → take k (take m xs) ≡ take k xs
  take-take zero m xs h = refl
  take-take (suc k) zero xs h = absurd (omega (arith, h))
  take-take (suc k) (suc m) [] h = refl
  take-take (suc k) (suc m) (x ∷ xs) h = ap (◌∷◌ x) (take-take k m xs (omega (arith, h)))

  take_nil : (k m : ℕ) → take k (take {A = A} m []) ≡ []
  take_nil zero m = refl
  take_nil (suc k) zero = refl
  take_nil (suc k) (suc m) = refl

  take-take-drop :
      (n k m : ℕ) (xs : List A) → k ≤ m → take n xs ++ take k (take m (drop n xs)) ≡ take (n + k) xs
  take-take-drop zero k m xs h = let same : 0 + k ≡ k = omega arith in rw same (take-take k m xs h)
  take-take-drop (suc n) k m [] h =
      let same : suc n + k ≡ suc (n + k) = omega arith in rw same (take_nil k m)
  take-take-drop (suc n) k m (x ∷ xs) h =
      let same : suc n + k ≡ suc (n + k) = omega arith in
      rw same (ap (◌∷◌ x) (take-take-drop n k m xs h))

module _ (C : Channel) (L : IsLawful C) where
  open C use {State, send}
  open L use {
    outgoing, interrupts, broken, send-sent, send-none, send-send_interrupted, send-send_failed,
  }

  -- A write of the first bytes of a buffer, this many: all of them were taken, in order, behind what
  -- was taken before, or it fails because the connection broke and some of them were taken.
  abbrev pub IsWhole : ℕ → Bytes → State → Call C Unit → Type 0
  IsWhole size buffer s (ok done, t) = outgoing t ≡ outgoing s ++ take size buffer
  IsWhole size buffer s (unexpected e, t) =
      (e ≡ send_error)
      × (broken s ≡ true)
      × (k : ℕ) × (k < size)
      × (outgoing t ≡ outgoing s ++ take k buffer)
  IsWhole size buffer s (terminate, t) = ⊥
  IsWhole size buffer s (out_of_fuel, t) = ⊥

  -- So many bytes of the buffer were taken since the call began.
  abbrev IsUnderway : ℕ → Bytes → State → ℕ → State → Type 0
  IsUnderway size buffer s total t =
      (total ≤ size) × (outgoing t ≡ outgoing s ++ take total buffer) × (broken t ≡ broken s)

  abbrev left : ℕ → ℕ → State → ℕ
  left size total t = (size - total) + interrupts t

  -- The bytes that a round gives to `send`.
  abbrev rest_of : ℕ → Bytes → ℕ → Bytes
  rest_of size buffer total = take (size - total) (drop total buffer)

  module _ (size : ℕ) (buffer : Bytes) (s : State) (fits : size ≤ length buffer) where
    sent_bytes-IsWhole :
        (again : ℕ → State → Call C Unit) (total : ℕ) (r : Sent) (t u : State)
        → ((n : ℕ) (v : State)
            → IsUnderway size buffer s n v
            → left size n v < left size total t
            → IsWhole size buffer s (again n v))
        → IsUnderway size buffer s total t
        → total < size
        → send (rest_of size buffer total) t ≡ (r, u)
        → IsWhole size buffer s (sent_bytes C again total r u)
    unfolding sent_bytes
    sent_bytes-IsWhole again total (sent zero) t u next (short, sofar, same) room e =
        let asked = length-take-drop (size - total) total buffer (omega (arith, fits, short)) in
        let (few, now, calmer, kept) = send-sent (rest_of size buffer total) 0 t u e in
        (
          refl,
          sym same ∙ send-none (rest_of size buffer total) t u (omega (arith, room, asked)) e,
          total,
          room,
          now ∙ append-nil (outgoing t) ∙ sofar,
        )
    sent_bytes-IsWhole again total (sent (suc k)) t u next (short, sofar, same) room e =
        let asked = length-take-drop (size - total) total buffer (omega (arith, fits, short)) in
        let (few, now, calmer, kept) = send-sent (rest_of size buffer total) (suc k) t u e in
        let within : suc k ≤ size - total = omega (arith, few, asked) in
        next (total + suc k) u
          (
            omega (arith, within, room),
            now
                ∙ ap (λ o. o ++ take (suc k) (rest_of size buffer total)) sofar
                ∙ append_assoc (outgoing s) (take total buffer)
                    (take (suc k) (rest_of size buffer total))
                ∙ ap (λ r. outgoing s ++ r)
                    (take-take-drop total (suc k) (size - total) buffer within),
            kept ∙ same,
          )
          (omega (arith, within, calmer))
    sent_bytes-IsWhole again total send_interrupted t u next (short, sofar, same) room e =
        let (now, calmer, kept) = send-send_interrupted (rest_of size buffer total) t u e in
        next total u (short, now ∙ sofar, kept ∙ same) (omega (arith, calmer))
    sent_bytes-IsWhole again total send_failed t u next (short, sofar, same) room e =
        let (now, broke) = send-send_failed (rest_of size buffer total) t u e in
        (refl, sym same ∙ broke, total, room, now ∙ sofar)

    write_loop-IsWhole :
        (fuel total : ℕ) (t : State)
        → IsUnderway size buffer s total t
        → left size total t < fuel
        → IsWhole size buffer s (write_loop C fuel size buffer total t)
    unfolding write_loop
    write_loop-IsWhole zero total t h few = absurd (omega (arith, few))
    write_loop-IsWhole (suc fuel) total t h few = elim (Bool-cases (ltb total size)) [
      | inl y ↦
          let reply = send (rest_of size buffer total) t in
          rw y (
            sent_bytes-IsWhole (write_loop C fuel size buffer) total reply.0 t reply.1
              (λ n v k less. write_loop-IsWhole fuel n v k (omega (arith, less, few))) h
              (ground (arith, y)) refl)
      | inr n ↦
          let all : total ≡ size = ground (arith, h.0, n) in
          rw n (h.1 ∙ ap (λ k. outgoing s ++ take k buffer) all)
    ]

  -- A call of `write`, given enough rounds, sends the bytes of the buffer in order, as many as a
  -- number of 32 bits says, or it fails, and it fails only when the connection broke.
  pub write-IsWhole :
      (fuel : ℕ) (buffer : Bytes) (s : State)
      → size_type (length buffer) + interrupts s < fuel
      → IsWhole (size_type (length buffer)) buffer s (write C fuel buffer s)
  unfolding write
  write-IsWhole fuel buffer s few = elim (Bool-cases (length buffer == 0)) [
    | inl y ↦
        let zero_size : length buffer ≡ 0 = ground (arith, y) in
        let none : size_type (length buffer) ≡ 0 = ap size_type zero_size in
        rw (y, none) (sym (append-nil (outgoing s)))
    | inr n ↦ rw n (
        write_loop-IsWhole (size_type (length buffer)) buffer s (omega arith) fuel 0 s
          (omega arith, sym (append-nil (outgoing s)), refl) (omega (arith, few)))
  ]
