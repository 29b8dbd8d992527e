-- ===== src/Process/Closed.antt =====
-- Whatever is done with a process, its descriptors are closed in the end.
use lsp_framework_noec.Base.{
  ℕ, Bool, true, false, ◌≡◌, refl, sym, ap, ◌∙◌, Bytes, List, [], Option, none, some, arith,
}
use lsp_framework_noec.Process.Child.{
  Posix, Signal, Impl, no_impl, close_handle, close_std_handles, executed, forked, with_err_pipe,
  with_out_pipe, with_in_pipe, make_impl, watched, check_running_pid, check_running, signal, reap,
  end_child, destroy,
}
use lsp_framework_noec.Process.Child
use lsp_framework_noec.Process.Transfer
use lsp_framework_noec.Process.Transfer.{
  Call, read_fd, got_bytes, read_stdout, put_bytes, write_fd, write_stdin,
}
use lsp_framework_noec.Process.Life.{
  Process, start, is_running, id_of, id, wait, terminate, Use, asks, asks_id, waits, terminates,
  reads, writes, Lives, started, used,
}
use lsp_framework_noec.Process.Handles.{IsLawful, held, Holds, Sound}
use lsp_framework_noec.Process.Moves.{opened-read_stdout, opened-write_stdin}

module _ (O : Posix) (L : IsLawful O) where
  open O use {World, close}
  open L use {opened}

  abbrev Closed : (ℕ → ℕ) → Impl × World → Type 0
  Closed base (impl, w) =
      (impl.stdin_write ≡ none) × (impl.stdout_read ≡ none) × ((x : ℕ) → opened w x ≡ base x)

  abbrev Watched : (ℕ → ℕ) → Bool × Impl × World → Type 0
  Watched base (true, impl, w) = Sound O L base (impl, w)
  Watched base (false, impl, w) = Closed base (impl, w)

  Closed-Sound :
      (base : ℕ → ℕ) (impl : Impl) (w : World) → Closed base (impl, w) → Sound O L base (impl, w)
  Closed-Sound base impl w (a, b, h) = (λ e. (a, b), λ x. rw (a, b) (omega (arith, h x)))

  close_handles :
      (i o : Option ℕ) (base : ℕ → ℕ) (w : World) (pid : Option ℕ)
      → Holds O L base (record { stdin_write = i; stdout_read = o; pid = pid }, w)
      → (x : ℕ) → opened (close_handle O o (close_handle O i w)) x ≡ base x
  unfolding close_handle
  close_handles none none base w pid h x = omega (arith, h x)
  close_handles none (some o) base w pid h x = omega (arith, h x, L.opened-close o w x)
  close_handles (some i) none base w pid h x = omega (arith, h x, L.opened-close i w x)
  close_handles (some i) (some o) base w pid h x =
      omega (arith, h x, L.opened-close o (close i w) x, L.opened-close i w x)

  close_std_handles-Closed :
      (impl : Impl) (base : ℕ → ℕ) (w : World)
      → Holds O L base (impl, w)
      → Closed base (close_std_handles O impl w)
  unfolding close_std_handles
  close_std_handles-Closed impl base w h =
      (refl, refl, close_handles impl.stdin_write impl.stdout_read base w impl.pid h)

  watched-Watched :
      (impl : Impl) (base : ℕ → ℕ) (r : Bool × World)
      → Sound O L base (impl, r.1)
      → Watched base (watched O impl r)
  unfolding watched
  watched-Watched impl base (true, w) h = h
  watched-Watched impl base (false, w) (tidy, h) =
      close_std_handles-Closed (record impl { pid = none }) base w h

  check_running_pid-Watched :
      (pid : Option ℕ) (impl : Impl) (base : ℕ → ℕ) (w : World)
      → impl.pid ≡ pid
      → Sound O L base (impl, w)
      → Watched base (check_running_pid O pid impl w)
  unfolding check_running_pid
  check_running_pid-Watched none impl base w e (tidy, h) =
      let (a, b) = tidy e in
      (a, b, λ x. omega (arith, h x, ap (λ fd. held O L fd x) a, ap (λ fd. held O L fd x) b))
  check_running_pid-Watched (some pid) impl base w e (tidy, h) =
      watched-Watched impl base (O.still_running pid w)
        (tidy, λ x. L.opened-still_running pid w x ∙ h x)

  check_running-Watched :
      (impl : Impl) (base : ℕ → ℕ) (w : World)
      → Sound O L base (impl, w)
      → Watched base (check_running O impl w)
  unfolding check_running
  check_running-Watched impl base w h = check_running_pid-Watched impl.pid impl base w refl h

  reap-Closed :
      (s : Option Signal) (pid : Option ℕ) (base : ℕ → ℕ) (r : Impl × World)
      → Closed base r
      → Closed base (reap O s pid r)
  unfolding reap signal
  reap-Closed s none base (impl, w) h = h
  reap-Closed none (some pid) base (impl, w) (a, b, h) = (a, b, λ x. L.opened-waitpid pid w x ∙ h x)
  reap-Closed (some k) (some pid) base (impl, w) (a, b, h) =
      (a, b, λ x. L.opened-waitpid pid (O.kill pid k w) x ∙ L.opened-kill pid k w x ∙ h x)

  end_child-Closed :
      (s : Option Signal) (base : ℕ → ℕ) (r : Bool × Impl × World)
      → Watched base r
      → Closed base (end_child O s r)
  unfolding end_child
  end_child-Closed s base (false, impl, w) h = h
  end_child-Closed s base (true, impl, w) (tidy, h) =
      reap-Closed s impl.pid base (close_std_handles O impl w)
        (close_std_handles-Closed impl base w h)

  destroy_lem :
      (base : ℕ → ℕ) (impl : Impl) (w : World)
      → Sound O L base (impl, w)
      → (x : ℕ) → opened (destroy O impl w) x ≡ base x
  unfolding destroy
  destroy_lem base impl w h =
      let closed =
        end_child-Closed (some Child.sigkill) base (check_running O impl w)
          (check_running-Watched impl base w h) in
      closed.2

  -- What holds of a process between the calls of its owner.
  abbrev pub Kept : (ℕ → ℕ) → Process O × World → Type 0
  Kept base (none, w) = (x : ℕ) → opened w x ≡ base x
  Kept base (some impl, w) = Sound O L base (impl, w)

  destroy-end_child :
      (base : ℕ → ℕ) (s : Option Signal) (impl : Impl) (w : World)
      → Sound O L base (impl, w)
      → let ended = end_child O s (check_running O impl w) in
        (x : ℕ) → opened (destroy O ended.0 ended.1) x ≡ base x
  destroy-end_child base s impl w h =
      let ended = end_child O s (check_running O impl w) in
      destroy_lem base ended.0 ended.1 (
        Closed-Sound base ended.0 ended.1
          (end_child-Closed s base (check_running O impl w) (check_running-Watched impl base w h)))

  pub wait-Kept :
      (base : ℕ → ℕ) (p : Process O) (w : World) → Kept base (p, w) → Kept base (wait O p w)
  unfolding wait Child.wait
  wait-Kept base none w h = h
  wait-Kept base (some impl) w h = destroy-end_child base none impl w h

  terminate-Kept :
      (base : ℕ → ℕ) (p : Process O) (w : World) → Kept base (p, w) → Kept base (terminate O p w)
  unfolding terminate Child.terminate
  terminate-Kept base none w h = h
  terminate-Kept base (some impl) w h = destroy-end_child base (some Child.sigterm) impl w h

  Watched-Sound :
      (base : ℕ → ℕ) (running : Bool) (impl : Impl) (w : World)
      → Watched base (running, impl, w)
      → Sound O L base (impl, w)
  Watched-Sound base true impl w h = h
  Watched-Sound base false impl w h = Closed-Sound base impl w h

  is_running-Kept :
      (base : ℕ → ℕ) (p : Process O) (w : World)
      → Kept base (p, w)
      → Kept base ((is_running O p w).1, (is_running O p w).2)
  unfolding is_running
  is_running-Kept base none w h = h
  is_running-Kept base (some impl) w h =
      let found = check_running O impl w in
      Watched-Sound base found.0 found.1 found.2 (check_running-Watched impl base w h)

  id_of-Kept :
      (base : ℕ → ℕ) (r : Bool × Process O × World)
      → Kept base (r.1, r.2)
      → Kept base ((id_of O r).1, (id_of O r).2)
  unfolding id_of
  id_of-Kept base (running, none, w) h = h
  id_of-Kept base (running, some impl, w) h = h

  id-Kept :
      (base : ℕ → ℕ) (p : Process O) (w : World)
      → Kept base (p, w)
      → Kept base ((id O p w).1, (id O p w).2)
  unfolding id
  id-Kept base p w h = id_of-Kept base (is_running O p w) (is_running-Kept base p w h)

  Sound-moved :
      (base : ℕ → ℕ) (impl : Impl) (v w : World)
      → ((x : ℕ) → opened w x ≡ opened v x)
      → Sound O L base (impl, v)
      → Sound O L base (impl, w)
  Sound-moved base impl v w same (tidy, h) = (tidy, λ x. same x ∙ h x)

  Kept-some :
      (base : ℕ → ℕ) (p : Process O) (impl : Impl) (w : World)
      → p ≡ some impl
      → Kept base (p, w)
      → Sound O L base (impl, w)
  Kept-some base none impl w e h = absurd (cc e)
  Kept-some base (some i) impl w e h = let same : i ≡ impl = cc e in rw (sym same) h

  Use-Kept : (base : ℕ → ℕ) (p q : Process O × World) → Use O p q → Kept base p → Kept base q
  unfolding Transfer.read Transfer.write
  Use-Kept base p q (asks e) h = rw e (is_running-Kept base p.0 p.1 h)
  Use-Kept base p q (asks_id e) h = rw e (id-Kept base p.0 p.1 h)
  Use-Kept base p q (waits e) h = rw e (wait-Kept base p.0 p.1 h)
  Use-Kept base p q (terminates e) h = rw e (terminate-Kept base p.0 p.1 h)
  Use-Kept base p q (reads fuel size impl at e) h =
      let here = Kept-some base p.0 impl p.1 at h in
      rw e (
        Sound-moved base impl p.1 (Transfer.read O fuel size impl p.1).1
          (opened-read_stdout O L fuel size impl [] p.1) here)
  Use-Kept base p q (writes fuel buffer impl at e) h =
      let here = Kept-some base p.0 impl p.1 at h in
      rw e (
        Sound-moved base impl p.1 (Transfer.write O fuel buffer impl p.1).1
          (opened-write_stdin O L fuel buffer impl 0 p.1) here)

  pub Lives-Kept :
      (base : ℕ → ℕ) {executable : Bytes} {args : List Bytes} {v : World} {p : Process O × World}
      → Kept base (start O executable args v)
      → Lives O executable args v p
      → Kept base p
  Lives-Kept base h started = h
  Lives-Kept base h (used {p} {q} life u) = Use-Kept base p q u (Lives-Kept base h life)
