-- ===== src/Process/Exact.antt =====
-- What a read from a child gives while the child still writes.
use lsp_framework_noec.Base.{
  ℕ, zero, suc, ◌+◌, ◌-◌, ◌≤◌, ◌<◌, false, ◌≡◌, refl, sym, ap, ◌∙◌, inl, inr, Bytes, [], ◌∷◌, ◌++◌,
  append_assoc, length, length-append, ltb, ok, Bool-cases, arith,
}
use lsp_framework_noec.Socket.Transfer.{
  Received, received, recv_interrupted, recv_failed, Channel, IsLawful,
}
use lsp_framework_noec.Process.Child.{Posix, Impl}
use lsp_framework_noec.Process.Transfer.{Call, read_fd, write_fd, got_bytes, read_stdout, read}

module _ (O : Posix) (impl : Impl) where
  open O use {World}

  -- The pipes of a child, as a connection.
  abbrev pub pipes : Channel
  pipes = record {
    State = World;
    recv = read_fd O impl.stdout_read;
    send = write_fd O impl.stdin_write;
  }

  module _ (L : IsLawful pipes) where
    open L use {
      incoming, interrupts, broken, recv-received, recv-end, recv-recv_interrupted,
      recv-recv_failed,
    }

    -- A read that gives these many bytes, the next ones of the child's output.
    abbrev pub Gives : ℕ → World → Call O Bytes → Type 0
    Gives size v r =
        (bytes : Bytes) × (w : World) × (r ≡ (ok bytes, w))
        × (length bytes ≡ size)
        × (incoming v ≡ bytes ++ incoming w)

    abbrev IsUnderway : ℕ → World → Bytes → World → Type 0
    IsUnderway size v got w =
        (length got ≤ size)
        × (size ≤ length got + length (incoming w))
        × (incoming v ≡ got ++ incoming w)
        × (broken w ≡ false)

    abbrev left : ℕ → Bytes → World → ℕ
    left size got w = (size - length got) + interrupts w

    got_bytes-Gives :
        (size : ℕ) (v : World) (again : Bytes → World → Call O Bytes) (got : Bytes) (w : World)
        (r : Received) (u : World)
        → ((more : Bytes) (t : World)
            → IsUnderway size v more t
            → left size more t < left size got w
            → Gives size v (again more t))
        → IsUnderway size v got w
        → length got < size
        → read_fd O impl.stdout_read (size - length got) w ≡ (r, u)
        → Gives size v (got_bytes O again got (r, u))
    unfolding got_bytes
    got_bytes-Gives size v again got w (received []) u next (short, enough, split, whole) room e =
        let nothing = recv-end (size - length got) w u (omega (arith, room)) e in
        absurd (omega (arith, enough, room, ap length nothing))
    got_bytes-Gives size v again got w (received (c ∷ xs)) u next (short, enough, split, whole) room
          e =
        let (few, now, calmer, kept) = recv-received (size - length got) (c ∷ xs) w u e in
        let long = length-append got (c ∷ xs) in
        let parts = ap length now ∙ length-append (c ∷ xs) (incoming u) in
        next (got ++ c ∷ xs) u
          (
            omega (arith, long, few, room),
            omega (arith, long, parts, enough),
            split ∙ ap (λ r. got ++ r) now ∙ sym (append_assoc got (c ∷ xs) (incoming u)),
            kept ∙ whole,
          )
          (omega (arith, long, few, room, calmer))
    got_bytes-Gives size v again got w recv_interrupted u next (short, enough, split, whole) room
          e =
        let (now, calmer, kept) = recv-recv_interrupted (size - length got) w u e in
        next got u
          (
            short,
            omega (arith, enough, ap length now),
            split ∙ ap (λ r. got ++ r) (sym now),
            kept ∙ whole,
          )
          (omega (arith, calmer))
    got_bytes-Gives size v again got w recv_failed u next (short, enough, split, whole) room e =
        let broke = recv-recv_failed (size - length got) w u e in absurd (cc (broke, whole))

    read_stdout-Gives :
        (fuel size : ℕ) (v : World) (got : Bytes) (w : World)
        → IsUnderway size v got w
        → left size got w < fuel
        → Gives size v (read_stdout O fuel size impl got w)
    unfolding read_stdout
    read_stdout-Gives zero size v got w h few = absurd (omega (arith, few))
    read_stdout-Gives (suc fuel) size v got w h few = elim (Bool-cases (ltb (length got) size)) [
      | inl y ↦
          let reply = read_fd O impl.stdout_read (size - length got) w in
          rw y (
            got_bytes-Gives size v (read_stdout O fuel size impl) got w reply.0 reply.1
              (λ more t k less. read_stdout-Gives fuel size v more t k (omega (arith, less, few))) h
              (ground (arith, y)) refl)
      | inr n ↦ rw n (got, w, refl, ground (arith, h.0, n), h.2)
    ]

    -- A read of no more bytes than the child still writes comes to an end and gives exactly the next
    -- bytes of the child's output, as many as were asked for, if the pipe does not break.
    pub read-Gives :
        (fuel size : ℕ) (v : World)
        → size ≤ length (incoming v)
        → broken v ≡ false
        → size + interrupts v < fuel
        → Gives size v (read O fuel size impl v)
    unfolding read
    read-Gives fuel size v enough whole few =
        read_stdout-Gives fuel size v [] v (omega arith, omega (arith, enough), refl, whole)
          (omega (arith, few))
