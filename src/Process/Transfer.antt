-- ===== src/Process/Transfer.antt =====
-- `Process::Impl::read` and `Process::Impl::write`: the standard output and input of the child.
use lsp_framework_noec.Base.{
  ℕ, zero, suc, ◌+◌, ◌-◌, ◌<◌, ◌≡◌, refl, true, Bytes, [], ◌++◌, append-nil, length, drop, ltb,
  if◌then◌else◌, Option, none, some, Outcome, ok, unexpected, out_of_fuel, arith,
}
use lsp_framework_noec.Socket.Transfer.{
  Received, received, recv_interrupted, recv_failed, Sent, sent, send_interrupted, send_failed,
}
use lsp_framework_noec.Process.Child.{Posix, Impl}

-- `io::Error`, without its text.
pub data IoError : Type 0 where
  read_failed write_failed : IoError

module _ (O : Posix) where
  open O use {World}

  abbrev pub Call : Type 0 → Type 0
  Call A = Outcome IoError A × World

  -- `::read` and `::write` fail on the descriptor -1.
  unfoldable pub read_fd : Option ℕ → ℕ → World → Received × World
  read_fd none n w = (recv_failed, w)
  read_fd (some fd) n w = O.read fd n w

  unfoldable pub write_fd : Option ℕ → Bytes → World → Sent × World
  write_fd none bytes w = (send_failed, w)
  write_fd (some fd) bytes w = O.write fd bytes w

  -- What the loop does with a result of `::read`: `again` is its next round.
  unfoldable pub got_bytes : (Bytes → World → Call Bytes) → Bytes → Received × World → Call Bytes
  got_bytes again got (received xs, w) = again (got ++ xs) w
  got_bytes again got (recv_interrupted, w) = again got w
  got_bytes again got (recv_failed, w) = (unexpected read_failed, w)

  -- The loop of `read`, with the bytes that the buffer has so far.
  unfoldable pub read_stdout : ℕ → ℕ → Impl → Bytes → World → Call Bytes
  read_stdout zero size impl got w = (out_of_fuel, w)
  read_stdout (suc fuel) size impl got w =
      let reply = read_fd impl.stdout_read (size - length got) w in
      let rest = got_bytes (read_stdout fuel size impl) got reply in
      if ltb (length got) size then rest else (ok got, w)

  unfoldable pub read : ℕ → ℕ → Impl → World → Call Bytes
  read fuel size impl w = read_stdout fuel size impl [] w

  -- What the loop does with a result of `::write`.
  unfoldable pub put_bytes : (ℕ → World → Call Unit) → ℕ → Sent × World → Call Unit
  put_bytes again total (sent k, w) = again (total + k) w
  put_bytes again total (send_interrupted, w) = again total w
  put_bytes again total (send_failed, w) = (unexpected write_failed, w)

  -- The loop of `write`, with the number of bytes that were written so far.
  unfoldable pub write_stdin : ℕ → Bytes → Impl → ℕ → World → Call Unit
  write_stdin zero buffer impl total w = (out_of_fuel, w)
  write_stdin (suc fuel) buffer impl total w =
      let reply = write_fd impl.stdin_write (drop total buffer) w in
      let rest = put_bytes (write_stdin fuel buffer impl) total reply in
      if ltb total (length buffer) then rest else (ok tt, w)

  unfoldable pub write : ℕ → Bytes → Impl → World → Call Unit
  write fuel buffer impl w = write_stdin fuel buffer impl 0 w

  read_stdout-endless :
      (fuel size : ℕ) (impl : Impl) (got : Bytes) (w : World)
      → ((n : ℕ) → read_fd impl.stdout_read n w ≡ (received [], w))
      → length got < size
      → read_stdout fuel size impl got w ≡ (out_of_fuel, w)
  unfolding read_stdout got_bytes
  read_stdout-endless zero size impl got w ended room = refl
  read_stdout-endless (suc fuel) size impl got w ended room =
      let short : ltb (length got) size ≡ true = ground (arith, room) in
      rw (short, ended (size - length got), append-nil got)
        (read_stdout-endless fuel size impl got w ended room)

  -- Where the child's output has ended, so that `::read` gives no bytes, a read of any bytes goes on
  -- for ever: no fuel is enough.
  pub read-endless :
      (fuel size : ℕ) (impl : Impl) (w : World)
      → ((n : ℕ) → read_fd impl.stdout_read n w ≡ (received [], w))
      → 0 < size
      → read fuel size impl w ≡ (out_of_fuel, w)
  unfolding read
  read-endless fuel size impl w ended some_bytes =
      read_stdout-endless fuel size impl [] w ended some_bytes
