-- ===== src/Socket/Exact.antt =====
-- What a call of `Socket::read` or `Socket::write` has done when it returns.
use lsp_framework_noec.Base.{
  ℕ, zero, suc, ◌+◌, ◌-◌, ◌≤◌, ◌<◌, ◌≡◌, refl, sym, ap, ◌∙◌, ◌⊎◌, inl, inr, true, Bytes, [], ◌∷◌,
  ◌++◌, append_assoc, append-nil, length, length-append, ltb, ◌==◌, ok, unexpected, terminate,
  out_of_fuel, Bool-cases, arith,
}
use lsp_framework_noec.Socket.Transfer.{
  Received, received, recv_interrupted, recv_failed, Channel, IsLawful, recv_error, size_type, Call,
  received_bytes, read_loop, read,
}

module _ (C : Channel) (L : IsLawful C) where
  open C use {State, recv, send}
  open L use {
    incoming, outgoing, interrupts, broken, recv-received, recv-end, recv-recv_interrupted,
    recv-recv_failed,
  }

  -- A read of this many bytes: all of them are the next ones to arrive, or it fails because too few
  -- arrive or because the connection broke.
  abbrev pub IsExact : ℕ → State → Call C Bytes → Type 0
  IsExact size s (ok bytes, t) = (length bytes ≡ size) × (incoming s ≡ bytes ++ incoming t)
  IsExact size s (unexpected e, t) =
      (e ≡ recv_error) × ((length (incoming s) < size) ⊎ (broken s ≡ true))
  IsExact size s (terminate, t) = ⊥
  IsExact size s (out_of_fuel, t) = ⊥

  -- The bytes that the buffer has are those that arrived since the call began.
  abbrev IsUnderway : ℕ → State → Bytes → State → Type 0
  IsUnderway size s got t =
      (length got ≤ size) × (incoming s ≡ got ++ incoming t) × (broken t ≡ broken s)

  abbrev left : ℕ → Bytes → State → ℕ
  left size got t = (size - length got) + interrupts t

  received_bytes-IsExact :
      (size : ℕ) (s : State) (again : Bytes → State → Call C Bytes) (got : Bytes) (r : Received)
      (t u : State)
      → ((more : Bytes) (v : State)
          → IsUnderway size s more v
          → left size more v < left size got t
          → IsExact size s (again more v))
      → IsUnderway size s got t
      → length got < size
      → recv (size - length got) t ≡ (r, u)
      → IsExact size s (received_bytes C again got r u)
  unfolding received_bytes
  received_bytes-IsExact size s again got (received []) t u next (short, split, same) room e =
      let nothing = recv-end (size - length got) t u (omega (arith, room)) e in
      let all : incoming s ≡ got = split ∙ ap (λ r. got ++ r) nothing ∙ append-nil got in
      (refl, inl (omega (arith, room, ap length all)))
  received_bytes-IsExact size s again got (received (c ∷ xs)) t u next (short, split, same) room e =
      let (few, now, calmer, kept) = recv-received (size - length got) (c ∷ xs) t u e in
      let long = length-append got (c ∷ xs) in
      next (got ++ c ∷ xs) u
        (
          omega (arith, long, few, room),
          split ∙ ap (λ r. got ++ r) now ∙ sym (append_assoc got (c ∷ xs) (incoming u)),
          kept ∙ same,
        )
        (omega (arith, long, few, room, calmer))
  received_bytes-IsExact size s again got recv_interrupted t u next (short, split, same) room e =
      let (now, calmer, kept) = recv-recv_interrupted (size - length got) t u e in
      next got u (short, split ∙ ap (λ r. got ++ r) (sym now), kept ∙ same) (omega (arith, calmer))
  received_bytes-IsExact size s again got recv_failed t u next (short, split, same) room e =
      (refl, inr (sym same ∙ recv-recv_failed (size - length got) t u e))

  read_loop-IsExact :
      (fuel size : ℕ) (s : State) (got : Bytes) (t : State)
      → IsUnderway size s got t
      → left size got t < fuel
      → IsExact size s (read_loop C fuel size got t)
  unfolding read_loop
  read_loop-IsExact zero size s got t h few = absurd (omega (arith, few))
  read_loop-IsExact (suc fuel) size s got t h few = elim (Bool-cases (ltb (length got) size)) [
    | inl y ↦ rw y (
        received_bytes-IsExact size s (read_loop C fuel size) got (recv (size - length got) t).0 t
          (recv (size - length got) t).1
          (λ more v k less. read_loop-IsExact fuel size s more v k (omega (arith, less, few))) h
          (ground (arith, y)) refl)
    | inr n ↦ rw n (ground (arith, h.0, n), h.1)
  ]

  -- A call of `read`, given enough rounds, gives exactly the next bytes that arrive, as many as a
  -- number of 32 bits says, or fails, and it fails only when fewer arrive or the connection broke.
  pub read-IsExact :
      (fuel size : ℕ) (s : State)
      → size_type size + interrupts s < fuel
      → IsExact (size_type size) s (read C fuel size s)
  unfolding read
  read-IsExact fuel size s few = elim (Bool-cases (size == 0)) [
    | inl y ↦
        let zero_size : size ≡ 0 = ground (arith, y) in
        let none : size_type size ≡ 0 = ap size_type zero_size in rw (y, none) (refl, refl)
    | inr n ↦ rw n (
        read_loop-IsExact fuel (size_type size) s [] s (omega arith, refl, refl)
          (omega (arith, few)))
  ]
