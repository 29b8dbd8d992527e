-- ===== src/Socket/Transfer.antt =====
-- `Socket::Impl::read` and `Socket::Impl::write`.
use lsp_framework_noec.Base.{
  ℕ, zero, suc, ◌+◌, ◌-◌, ◌%◌, ◌^◌, ◌≤◌, ◌<◌, ◌≡◌, Bool, true, Bytes, [], ◌∷◌, ◌++◌, length, take,
  drop, ltb, ◌==◌, if◌then◌else◌, Outcome, ok, unexpected, out_of_fuel, Option, none, some,
}

-- What `recv` comes to. No bytes are received at the end of the stream.
pub data Received : Type 0 where
  received : Bytes → Received
  recv_interrupted recv_failed : Received

-- What `send` comes to: how many of the bytes were taken.
pub data Sent : Type 0 where
  sent : ℕ → Sent
  send_interrupted send_failed : Sent

-- A connected socket of the operating system.
pub record Channel : Type 1 where
  pub State : Type 0
  pub recv : ℕ → State → Received × State
  pub send : Bytes → State → Sent × State

-- What POSIX says of it: bytes arrive and leave in order, no more than were asked for or given, a call
-- is not interrupted forever, and it fails only on a connection that broke.
pub record IsLawful (C : Channel) : Type 0 where
  -- The bytes that are still to arrive, and those that were taken.
  pub incoming : C.State → Bytes
  pub outgoing : C.State → Bytes
  -- How often calls are interrupted from here on.
  pub interrupts : C.State → ℕ
  pub broken : C.State → Bool
  pub recv-received :
      (n : ℕ) (xs : Bytes) (s t : C.State)
      → C.recv n s ≡ (received xs, t)
      → (length xs ≤ n)
        × (incoming s ≡ xs ++ incoming t)
        × (interrupts t ≤ interrupts s)
        × (broken t ≡ broken s)
  pub recv-end : (n : ℕ) (s t : C.State) → 0 < n → C.recv n s ≡ (received [], t) → incoming s ≡ []
  pub recv-recv_interrupted :
      (n : ℕ) (s t : C.State)
      → C.recv n s ≡ (recv_interrupted, t)
      → (incoming t ≡ incoming s) × (interrupts t < interrupts s) × (broken t ≡ broken s)
  pub recv-recv_failed : (n : ℕ) (s t : C.State) → C.recv n s ≡ (recv_failed, t) → broken s ≡ true
  pub send-sent :
      (xs : Bytes) (k : ℕ) (s t : C.State)
      → C.send xs s ≡ (sent k, t)
      → (k ≤ length xs)
        × (outgoing t ≡ outgoing s ++ take k xs)
        × (interrupts t ≤ interrupts s)
        × (broken t ≡ broken s)
  pub send-none :
      (xs : Bytes) (s t : C.State) → 0 < length xs → C.send xs s ≡ (sent 0, t) → broken s ≡ true
  pub send-send_interrupted :
      (xs : Bytes) (s t : C.State)
      → C.send xs s ≡ (send_interrupted, t)
      → (outgoing t ≡ outgoing s) × (interrupts t < interrupts s) × (broken t ≡ broken s)
  pub send-send_failed :
      (xs : Bytes) (s t : C.State)
      → C.send xs s ≡ (send_failed, t)
      → (outgoing t ≡ outgoing s) × (broken s ≡ true)

-- `Error`, without its text.
pub data SocketError : Type 0 where
  not_open recv_error send_error : SocketError

-- `static_cast<SizeType>`, a number of 32 bits.
abbrev pub size_type : ℕ → ℕ
size_type size = size % 2 ^ 32

module _ (C : Channel) where
  open C use {State, recv, send}

  abbrev pub Call : Type 0 → Type 0
  Call A = Outcome SocketError A × State

  -- What the loop does with a result of `recv`: `again` is its next round.
  unfoldable pub received_bytes :
      (Bytes → State → Call Bytes) → Bytes → Received → State → Call Bytes
  received_bytes again got (received []) s = (unexpected recv_error, s)
  received_bytes again got (received (c ∷ xs)) s = again (got ++ c ∷ xs) s
  received_bytes again got recv_interrupted s = again got s
  received_bytes again got recv_failed s = (unexpected recv_error, s)

  -- The loop of `read`, with the bytes that the buffer has so far.
  unfoldable pub read_loop : ℕ → ℕ → Bytes → State → Call Bytes
  read_loop zero size got s = (out_of_fuel, s)
  read_loop (suc fuel) size got s =
      let reply = recv (size - length got) s in
      let rest = received_bytes (read_loop fuel size) got reply.0 reply.1 in
      if ltb (length got) size then rest else (ok got, s)

  -- `Impl::read`: what the buffer has when the call succeeds.
  unfoldable pub read : ℕ → ℕ → State → Call Bytes
  read fuel size s = if size == 0 then (ok [], s) else read_loop fuel (size_type size) [] s

  -- What the loop does with a result of `send`.
  unfoldable pub sent_bytes : (ℕ → State → Call Unit) → ℕ → Sent → State → Call Unit
  sent_bytes again total (sent zero) s = (unexpected send_error, s)
  sent_bytes again total (sent (suc k)) s = again (total + suc k) s
  sent_bytes again total send_interrupted s = again total s
  sent_bytes again total send_failed s = (unexpected send_error, s)

  -- The loop of `write`, with the number of bytes that were sent so far.
  unfoldable pub write_loop : ℕ → ℕ → Bytes → ℕ → State → Call Unit
  write_loop zero size buffer total s = (out_of_fuel, s)
  write_loop (suc fuel) size buffer total s =
      let reply = send (take (size - total) (drop total buffer)) s in
      let rest = sent_bytes (write_loop fuel size buffer) total reply.0 reply.1 in
      if ltb total size then rest else (ok tt, s)

  -- `Impl::write` of a whole buffer.
  unfoldable pub write : ℕ → Bytes → State → Call Unit
  write fuel buffer s =
      if length buffer == 0
      then (ok tt, s)
      else write_loop fuel (size_type (length buffer)) buffer 0 s

  -- `Socket::read` and `Socket::write`: a socket that is not open has no state.
  unfoldable pub socket_read : ℕ → ℕ → Option State → Outcome SocketError Bytes × Option State
  socket_read fuel size none = (unexpected not_open, none)
  socket_read fuel size (some s) = let (result, t) = read fuel size s in (result, some t)

  unfoldable pub socket_write : ℕ → Bytes → Option State → Outcome SocketError Unit × Option State
  socket_write fuel buffer none = (unexpected not_open, none)
  socket_write fuel buffer (some s) = let (result, t) = write fuel buffer s in (result, some t)
