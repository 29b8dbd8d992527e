-- ===== src/ProcessWitnesses.antt =====
-- Runs of the theorems on processes, with a small operating system.
use lsp_framework_noec.Base.{
  ℕ, zero, suc, ◌+◌, ◌-◌, ◌≤◌, ◌<◌, ◌≡◌, ◌⊎◌, refl, sym, append-nil, ap, ◌∙◌, take-length_append,
  true, false, Bytes, [], ◌∷◌, ◌++◌, length, take, some, arith, out_of_fuel, codes,
}
use lsp_framework_noec.Socket.Transfer.{
  Received, received, recv_interrupted, recv_failed, Sent, sent, send_interrupted, send_failed,
  IsLawful,
}
use lsp_framework_noec.Process.Child.{
  Posix, Impl, make_impl, with_in_pipe, with_out_pipe, with_err_pipe, forked, executed, no_impl,
}
use lsp_framework_noec.Process.Life.{start, wait, Lives, started, used, waits}
use lsp_framework_noec.Process.Handles
use lsp_framework_noec.Process.Handles.{one, ends}
use lsp_framework_noec.Process.Lifetime.{ended, Lives-ended}
use lsp_framework_noec.Process.Escape.{escape_arg, escape_args, read_argument}
use lsp_framework_noec.Process.Escape.ReadBack.{read_argument-escape_arg}
use lsp_framework_noec.Process.Exact.{pipes, Gives, read-Gives}
use lsp_framework_noec.Process.Transfer.{read, read_fd, write_fd, read-endless}

-- How often each descriptor is open, the next descriptor that is given, what children write and what
-- they were given.
abbrev Machine : Type 0
Machine = (ℕ → ℕ) × ℕ × Bytes × Bytes

unfoldable small_read : ℕ → ℕ → Machine → Received × Machine
small_read fd zero (count, next, xs, ys) = (received [], (count, next, xs, ys))
small_read fd (suc n) (count, next, [], ys) = (received [], (count, next, [], ys))
small_read fd (suc n) (count, next, x ∷ xs, ys) = (received (x ∷ []), (count, next, xs, ys))

abbrev small : Posix
small = record {
  World = Machine;
  pipe = λ m.
      (some (m.1, suc m.1), (λ x. ends (some (m.1, suc m.1)) x + m.0 x, suc (suc m.1), m.2, m.3));
  close = λ fd m. (λ x. m.0 x - one fd x, m.1, m.2, m.3);
  fork = λ c m. (some 77, m);
  read_error = λ fd m. (false, m);
  kill = λ pid s m. m;
  waitpid = λ pid m. m;
  still_running = λ pid m. (true, m);
  read = small_read;
  write = λ fd bytes m. (sent (length bytes), (m.0, m.1, m.2, m.3 ++ bytes));
}

opened-small_read : (fd n : ℕ) (v : Machine) (x : ℕ) → (small_read fd n v).1.0 x ≡ v.0 x
unfolding small_read
opened-small_read fd zero (count, next, xs, ys) x = refl
opened-small_read fd (suc n) (count, next, [], ys) x = refl
opened-small_read fd (suc n) (count, next, a ∷ xs, ys) x = refl

abbrev small-IsLawful : Handles.IsLawful small
small-IsLawful = record {
  opened = λ m. m.0;
  opened-pipe = λ v x. refl;
  opened-close = λ fd v x. refl;
  opened-fork = λ c v x. refl;
  opened-read_error = λ fd v x. refl;
  opened-kill = λ pid s v x. refl;
  opened-waitpid = λ pid v x. refl;
  opened-still_running = λ pid v x. refl;
  opened-read = opened-small_read;
  opened-write = λ fd bytes v x. refl;
}

-- A system without open descriptors, whose children write two bytes.
abbrev fresh : Machine
fresh = (λ x. 0, 3, 65 ∷ 66 ∷ [], [])

abbrev program : Bytes
program = codes "clangd"

waited :
    Lives small program [] fresh
      (wait small (start small program [] fresh).0 (start small program [] fresh).1)
waited = used started (waits refl)

Lives-ended_example :
    ((x : ℕ)
      → (ended small small-IsLawful
            (wait small (start small program [] fresh).0 (start small program [] fresh).1)).0
          x
        ≡ 0)
    ⊎ ((err : ℕ × ℕ) × Handles.ForkFails small small-IsLawful (program ∷ []) fresh err
        × ((make_impl small program [] fresh).0 ≡ no_impl)
        × ((x : ℕ)
            → (ended small small-IsLawful
                  (wait small (start small program [] fresh).0 (start small program [] fresh).1)).0
                x
              ≡ ends (some err) x + 0))
Lives-ended_example = Lives-ended small small-IsLawful waited

-- The first pipe has the descriptors 3 and 4, the second 5 and 6.
make_impl_runs :
    (make_impl small program [] fresh).0
    ≡ record { stdin_write = some 4; stdout_read = some 5; pid = some 77 }
unfolding make_impl with_in_pipe with_out_pipe with_err_pipe forked executed
make_impl_runs = refl

-- A child whose output is the descriptor 5.
abbrev running : Impl
running = record { stdin_write = some 4; stdout_read = some 5; pid = some 77 }

small_read-received :
    (n : ℕ) (xs : Bytes) (s t : Machine)
    → small_read 5 n s ≡ (received xs, t)
    → (length xs ≤ n) × (s.2 ≡ xs ++ t.2) × (0 ≤ 0) × (false ≡ false)
unfolding small_read
small_read-received zero xs (count, next, ds, ys) t e =
    let none : [] ≡ xs = cc e in
    let here : (count, next, ds, ys) ≡ t = cc e in
    rw (sym none, sym here) (omega arith, refl, omega arith, refl)
small_read-received (suc n) xs (count, next, [], ys) t e =
    let none : [] ≡ xs = cc e in
    let here : (count, next, [], ys) ≡ t = cc e in
    rw (sym none, sym here) (omega arith, refl, omega arith, refl)
small_read-received (suc n) xs (count, next, d ∷ ds, ys) t e =
    let one : d ∷ [] ≡ xs = cc e in
    let here : (count, next, ds, ys) ≡ t = cc e in
    rw (sym one, sym here) (omega arith, refl, omega arith, refl)

small_read-end : (n : ℕ) (s t : Machine) → 0 < n → small_read 5 n s ≡ (received [], t) → s.2 ≡ []
unfolding small_read
small_read-end zero (count, next, ds, ys) t h e = absurd (omega (arith, h))
small_read-end (suc n) (count, next, [], ys) t h e = refl
small_read-end (suc n) (count, next, d ∷ ds, ys) t h e = absurd (cc e)

small_read-interrupted :
    (n : ℕ) (s t : Machine)
    → small_read 5 n s ≡ (recv_interrupted, t)
    → (t.2 ≡ s.2) × (0 < 0) × (false ≡ false)
unfolding small_read
small_read-interrupted zero (count, next, ds, ys) t e = absurd (cc e)
small_read-interrupted (suc n) (count, next, [], ys) t e = absurd (cc e)
small_read-interrupted (suc n) (count, next, d ∷ ds, ys) t e = absurd (cc e)

small_read-failed : (n : ℕ) (s t : Machine) → small_read 5 n s ≡ (recv_failed, t) → false ≡ true
unfolding small_read
small_read-failed zero (count, next, ds, ys) t e = absurd (cc e)
small_read-failed (suc n) (count, next, [], ys) t e = absurd (cc e)
small_read-failed (suc n) (count, next, d ∷ ds, ys) t e = absurd (cc e)

take_whole : (xs : Bytes) → take (length xs) xs ≡ xs
take_whole xs = ap (take (length xs)) (sym (append-nil xs)) ∙ take-length_append xs []

abbrev small_write : Bytes → Machine → Sent × Machine
small_write bytes m = (sent (length bytes), (m.0, m.1, m.2, m.3 ++ bytes))

small_write-sent :
    (xs : Bytes) (k : ℕ) (s t : Machine)
    → small_write xs s ≡ (sent k, t)
    → (k ≤ length xs) × (t.3 ≡ s.3 ++ take k xs) × (0 ≤ 0) × (false ≡ false)
small_write-sent xs k s t e =
    let all : length xs ≡ k = cc e in
    let here : s.3 ++ xs ≡ t.3 = cc e in
    rw (sym all)
      (omega arith, sym here ∙ ap (λ r. s.3 ++ r) (sym (take_whole xs)), omega arith, refl)

small_write-none :
    (xs : Bytes) (s t : Machine) → 0 < length xs → small_write xs s ≡ (sent 0, t) → false ≡ true
small_write-none xs s t h e = let all : length xs ≡ 0 = cc e in absurd (omega (arith, h, all))

small_write-interrupted :
    (xs : Bytes) (s t : Machine)
    → small_write xs s ≡ (send_interrupted, t)
    → (t.3 ≡ s.3) × (0 < 0) × (false ≡ false)
small_write-interrupted xs s t e = absurd (cc e)

small_write-failed :
    (xs : Bytes) (s t : Machine)
    → small_write xs s ≡ (send_failed, t)
    → (t.3 ≡ s.3) × (false ≡ true)
small_write-failed xs s t e = absurd (cc e)

unfoldable pipes-IsLawful : IsLawful (pipes small running)
unfolding read_fd write_fd
pipes-IsLawful = record {
  incoming = λ m. m.2;
  outgoing = λ m. m.3;
  interrupts = λ m. 0;
  broken = λ m. false;
  recv-received = small_read-received;
  recv-end = small_read-end;
  recv-recv_interrupted = small_read-interrupted;
  recv-recv_failed = small_read-failed;
  send-sent = small_write-sent;
  send-none = small_write-none;
  send-send_interrupted = small_write-interrupted;
  send-send_failed = small_write-failed;
}

process_read_example : Gives small running pipes-IsLawful 2 fresh (read small 9 2 running fresh)
unfolding pipes-IsLawful
process_read_example =
    read-Gives small running pipes-IsLawful 9 2 fresh (omega arith) refl (omega arith)

-- The child has written all that it writes.
abbrev silent : Machine
silent = (λ x. 0, 3, [], [])

silent_read : (n : ℕ) → read_fd small (some 5) n silent ≡ (received [], silent)
unfolding read_fd small_read
silent_read zero = refl
silent_read (suc n) = refl

endless_example : read small 9 2 running silent ≡ (out_of_fuel, silent)
endless_example = read-endless small 9 2 running silent silent_read (omega arith)

-- An argument with a space, a quotation mark and backslashes in front of it and at the end.
escape_example :
    read_argument (escape_arg (codes "a b\\\"c\\") ++ escape_args (codes "-x" ∷ []))
    ≡ some (codes "a b\\\"c\\", escape_args (codes "-x" ∷ []))
escape_example = read_argument-escape_arg b'a' (codes " b\\\"c\\") (codes "-x" ∷ []) (ground arith)
