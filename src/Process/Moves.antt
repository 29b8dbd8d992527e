-- ===== src/Process/Moves.antt =====
-- Reading from a child and writing to it opens and closes nothing.
use lsp_framework_noec.Base.{
  ℕ, zero, suc, ◌+◌, ◌-◌, ◌≡◌, refl, ◌∙◌, inl, inr, Bytes, ◌++◌, Option, none, some, length, ltb,
  drop, Bool-cases,
}
use lsp_framework_noec.Socket.Transfer.{
  received, recv_interrupted, recv_failed, Received, Sent, sent, send_interrupted, send_failed,
}
use lsp_framework_noec.Process.Child.{Posix, Impl}
use lsp_framework_noec.Process.Transfer.{
  Call, read_fd, got_bytes, read_stdout, put_bytes, write_fd, write_stdin,
}
use lsp_framework_noec.Process.Handles.{IsLawful}

module _ (O : Posix) (L : IsLawful O) where
  open O use {World}
  open L use {opened}

  opened-read_fd :
      (fd : Option ℕ) (n : ℕ) (w : World) (x : ℕ) → opened (read_fd O fd n w).1 x ≡ opened w x
  unfolding read_fd
  opened-read_fd none n w x = refl
  opened-read_fd (some fd) n w x = L.opened-read fd n w x

  opened-write_fd :
      (fd : Option ℕ) (bytes : Bytes) (w : World) (x : ℕ)
      → opened (write_fd O fd bytes w).1 x ≡ opened w x
  unfolding write_fd
  opened-write_fd none bytes w x = refl
  opened-write_fd (some fd) bytes w x = L.opened-write fd bytes w x

  opened-got_bytes :
      (again : Bytes → World → Call O Bytes) (got : Bytes) (r : Received × World) (x : ℕ)
      → ((more : Bytes) (v : World) → opened (again more v).1 x ≡ opened v x)
      → opened (got_bytes O again got r).1 x ≡ opened r.1 x
  unfolding got_bytes
  opened-got_bytes again got (received xs, w) x h = h (got ++ xs) w
  opened-got_bytes again got (recv_interrupted, w) x h = h got w
  opened-got_bytes again got (recv_failed, w) x h = refl

  pub opened-read_stdout :
      (fuel size : ℕ) (impl : Impl) (got : Bytes) (w : World) (x : ℕ)
      → opened (read_stdout O fuel size impl got w).1 x ≡ opened w x
  unfolding read_stdout
  opened-read_stdout zero size impl got w x = refl
  opened-read_stdout (suc fuel) size impl got w x = elim (Bool-cases (ltb (length got) size)) [
    | inl y ↦ rw y (
        opened-got_bytes (read_stdout O fuel size impl) got
          (read_fd O impl.stdout_read (size - length got) w) x
          (λ more v. opened-read_stdout fuel size impl more v x)
        ∙ opened-read_fd impl.stdout_read (size - length got) w x)
    | inr n ↦ rw n refl
  ]

  opened-put_bytes :
      (again : ℕ → World → Call O Unit) (total : ℕ) (r : Sent × World) (x : ℕ)
      → ((n : ℕ) (v : World) → opened (again n v).1 x ≡ opened v x)
      → opened (put_bytes O again total r).1 x ≡ opened r.1 x
  unfolding put_bytes
  opened-put_bytes again total (sent k, w) x h = h (total + k) w
  opened-put_bytes again total (send_interrupted, w) x h = h total w
  opened-put_bytes again total (send_failed, w) x h = refl

  pub opened-write_stdin :
      (fuel : ℕ) (buffer : Bytes) (impl : Impl) (total : ℕ) (w : World) (x : ℕ)
      → opened (write_stdin O fuel buffer impl total w).1 x ≡ opened w x
  unfolding write_stdin
  opened-write_stdin zero buffer impl total w x = refl
  opened-write_stdin (suc fuel) buffer impl total w x =
      elim (Bool-cases (ltb total (length buffer))) [
        | inl y ↦ rw y (
            opened-put_bytes (write_stdin O fuel buffer impl) total
              (write_fd O impl.stdin_write (drop total buffer) w) x
              (λ n v. opened-write_stdin fuel buffer impl n v x)
            ∙ opened-write_fd impl.stdin_write (drop total buffer) w x)
        | inr n ↦ rw n refl
      ]
