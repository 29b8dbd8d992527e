-- ===== src/SocketWitnesses.antt =====
-- Runs of the theorems on sockets, with a small operating system.
use lsp_framework_noec.Base.{
  ℕ, zero, suc, ◌≤◌, ◌<◌, ◌≡◌, refl, sym, append-nil, true, false, Bytes, [], ◌∷◌, ◌++◌, length,
  take, arith, ok,
}
use lsp_framework_noec.Socket.Transfer
use lsp_framework_noec.Socket.Transfer.{
  Received, received, recv_interrupted, recv_failed, Sent, sent, send_interrupted, send_failed,
  Channel, read, write,
}
use lsp_framework_noec.Socket.Exact.{IsExact, read-IsExact}
use lsp_framework_noec.Socket.Whole.{IsWhole, write-IsWhole}

-- A connection that delivers and takes one byte at a time, behind some interruptions: their number,
-- the bytes that arrive and those that were taken.
abbrev Line : Type 0
Line = ℕ × Bytes × Bytes

unfoldable line_recv : ℕ → Line → Received × Line
line_recv n (suc k, xs, ys) = (recv_interrupted, (k, xs, ys))
line_recv zero (zero, xs, ys) = (received [], (zero, xs, ys))
line_recv (suc n) (zero, [], ys) = (received [], (zero, [], ys))
line_recv (suc n) (zero, x ∷ xs, ys) = (received (x ∷ []), (zero, xs, ys))

unfoldable line_send : Bytes → Line → Sent × Line
line_send bytes (suc k, xs, ys) = (send_interrupted, (k, xs, ys))
line_send [] (zero, xs, ys) = (sent 0, (zero, xs, ys))
line_send (b ∷ bytes) (zero, xs, ys) = (sent 1, (zero, xs, ys ++ b ∷ []))

abbrev line : Channel
line = record { State = Line; recv = line_recv; send = line_send }

line_recv-received :
    (n : ℕ) (xs : Bytes) (s t : Line)
    → line_recv n s ≡ (received xs, t)
    → (length xs ≤ n) × (s.1 ≡ xs ++ t.1) × (t.0 ≤ s.0) × (false ≡ false)
unfolding line_recv
line_recv-received n xs (suc k, ds, bs) t e = absurd (cc e)
line_recv-received zero xs (zero, ds, bs) t e =
    let none : [] ≡ xs = cc e in
    let here : (zero, ds, bs) ≡ t = cc e in
    rw (sym none, sym here) (omega arith, refl, omega arith, refl)
line_recv-received (suc n) xs (zero, [], bs) t e =
    let none : [] ≡ xs = cc e in
    let here : (zero, [], bs) ≡ t = cc e in
    rw (sym none, sym here) (omega arith, refl, omega arith, refl)
line_recv-received (suc n) xs (zero, a ∷ ds, bs) t e =
    let one : a ∷ [] ≡ xs = cc e in
    let here : (zero, ds, bs) ≡ t = cc e in
    rw (sym one, sym here) (omega arith, refl, omega arith, refl)

line_recv-end : (n : ℕ) (s t : Line) → 0 < n → line_recv n s ≡ (received [], t) → s.1 ≡ []
unfolding line_recv
line_recv-end n (suc k, ds, bs) t some_bytes e = absurd (cc e)
line_recv-end zero (zero, ds, bs) t some_bytes e = absurd (omega (arith, some_bytes))
line_recv-end (suc n) (zero, [], bs) t some_bytes e = refl
line_recv-end (suc n) (zero, a ∷ ds, bs) t some_bytes e = absurd (cc e)

line_recv-interrupted :
    (n : ℕ) (s t : Line)
    → line_recv n s ≡ (recv_interrupted, t)
    → (t.1 ≡ s.1) × (t.0 < s.0) × (false ≡ false)
unfolding line_recv
line_recv-interrupted n (suc k, ds, bs) t e =
    let here : (k, ds, bs) ≡ t = cc e in rw (sym here) (refl, omega arith, refl)
line_recv-interrupted zero (zero, ds, bs) t e = absurd (cc e)
line_recv-interrupted (suc n) (zero, [], bs) t e = absurd (cc e)
line_recv-interrupted (suc n) (zero, a ∷ ds, bs) t e = absurd (cc e)

line_recv-failed : (n : ℕ) (s t : Line) → line_recv n s ≡ (recv_failed, t) → false ≡ true
unfolding line_recv
line_recv-failed n (suc k, ds, bs) t e = absurd (cc e)
line_recv-failed zero (zero, ds, bs) t e = absurd (cc e)
line_recv-failed (suc n) (zero, [], bs) t e = absurd (cc e)
line_recv-failed (suc n) (zero, a ∷ ds, bs) t e = absurd (cc e)

line_send-sent :
    (xs : Bytes) (k : ℕ) (s t : Line)
    → line_send xs s ≡ (sent k, t)
    → (k ≤ length xs) × (t.2 ≡ s.2 ++ take k xs) × (t.0 ≤ s.0) × (false ≡ false)
unfolding line_send
line_send-sent xs k (suc n, ds, bs) t e = absurd (cc e)
line_send-sent [] k (zero, ds, bs) t e =
    let none : 0 ≡ k = cc e in
    let here : (zero, ds, bs) ≡ t = cc e in
    rw (sym none, sym here) (omega arith, sym (append-nil bs), omega arith, refl)
line_send-sent (x ∷ xs) k (zero, ds, bs) t e =
    let one : 1 ≡ k = cc e in
    let here : (zero, ds, bs ++ x ∷ []) ≡ t = cc e in
    rw (sym one, sym here) (omega arith, refl, omega arith, refl)

line_send-none :
    (xs : Bytes) (s t : Line) → 0 < length xs → line_send xs s ≡ (sent 0, t) → false ≡ true
unfolding line_send
line_send-none xs (suc n, ds, bs) t h e = absurd (cc e)
line_send-none [] (zero, ds, bs) t h e = absurd (omega (arith, h))
line_send-none (x ∷ xs) (zero, ds, bs) t h e = absurd (cc e)

line_send-interrupted :
    (xs : Bytes) (s t : Line)
    → line_send xs s ≡ (send_interrupted, t)
    → (t.2 ≡ s.2) × (t.0 < s.0) × (false ≡ false)
unfolding line_send
line_send-interrupted xs (suc k, ds, bs) t e =
    let here : (k, ds, bs) ≡ t = cc e in rw (sym here) (refl, omega arith, refl)
line_send-interrupted [] (zero, ds, bs) t e = absurd (cc e)
line_send-interrupted (x ∷ xs) (zero, ds, bs) t e = absurd (cc e)

line_send-failed :
    (xs : Bytes) (s t : Line) → line_send xs s ≡ (send_failed, t) → (t.2 ≡ s.2) × (false ≡ true)
unfolding line_send
line_send-failed xs (suc k, ds, bs) t e = absurd (cc e)
line_send-failed [] (zero, ds, bs) t e = absurd (cc e)
line_send-failed (x ∷ xs) (zero, ds, bs) t e = absurd (cc e)

abbrev line-IsLawful : Transfer.IsLawful line
line-IsLawful = record {
  incoming = λ s. s.1;
  outgoing = λ s. s.2;
  interrupts = λ s. s.0;
  broken = λ s. false;
  recv-received = line_recv-received;
  recv-end = line_recv-end;
  recv-recv_interrupted = line_recv-interrupted;
  recv-recv_failed = line_recv-failed;
  send-sent = line_send-sent;
  send-none = line_send-none;
  send-send_interrupted = line_send-interrupted;
  send-send_failed = line_send-failed;
}

read_example :
    IsExact line line-IsLawful 2
      (1, 65 ∷ 66 ∷ 67 ∷ [], [])
      (read line 9 2 (1, 65 ∷ 66 ∷ 67 ∷ [], []))
read_example = read-IsExact line line-IsLawful 9 2 (1, 65 ∷ 66 ∷ 67 ∷ [], []) (omega arith)

-- Two bytes in two pieces, behind an interruption.
read_runs : read line 9 2 (1, 65 ∷ 66 ∷ 67 ∷ [], []) ≡ (ok (65 ∷ 66 ∷ []), (0, 67 ∷ [], []))
unfolding read Transfer.read_loop Transfer.received_bytes line_recv
read_runs = refl

write_example :
    IsWhole line line-IsLawful 2
      (65 ∷ 66 ∷ [])
      (1, [], [])
      (write line 9 (65 ∷ 66 ∷ []) (1, [], []))
write_example = write-IsWhole line line-IsLawful 9 (65 ∷ 66 ∷ []) (1, [], []) (omega arith)
