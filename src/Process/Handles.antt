-- ===== src/Process/Handles.antt =====
-- Which descriptors a process leaves open.
use lsp_framework_noec.Base.{
  ℕ, ◌+◌, ◌-◌, Bool, true, false, ◌≡◌, refl, ap, ◌∙◌, ◌⊎◌, inl, inr, Bytes, List, ◌∷◌, Option, none,
  some, ◌==◌, if◌then◌else◌, arith,
}
use lsp_framework_noec.Process.Child.{
  Posix, Signal, Spawn, Impl, no_impl, executed, forked, with_err_pipe, with_out_pipe, with_in_pipe,
  make_impl,
}

unfoldable pub one : ℕ → ℕ → ℕ
one fd x = if x == fd then 1 else 0

-- The two ends of a pipe.
abbrev pub ends : Option (ℕ × ℕ) → ℕ → ℕ
ends none x = 0
ends (some (r, w)) x = one r x + one w x

-- What the operating system says of its descriptors: how often each number is open, once or not at
-- all. A child has its own, so that those are not counted.
pub record IsLawful (O : Posix) : Type 0 where
  pub opened : O.World → ℕ → ℕ
  pub opened-pipe : (v : O.World) (x : ℕ) → opened (O.pipe v).1 x ≡ ends (O.pipe v).0 x + opened v x
  pub opened-close :
      (fd : ℕ) (v : O.World) (x : ℕ) → opened (O.close fd v) x ≡ opened v x - one fd x
  pub opened-fork : (c : Spawn) (v : O.World) (x : ℕ) → opened (O.fork c v).1 x ≡ opened v x
  pub opened-read_error :
      (fd : ℕ) (v : O.World) (x : ℕ) → opened (O.read_error fd v).1 x ≡ opened v x
  pub opened-kill :
      (pid : ℕ) (s : Signal) (v : O.World) (x : ℕ) → opened (O.kill pid s v) x ≡ opened v x
  pub opened-waitpid : (pid : ℕ) (v : O.World) (x : ℕ) → opened (O.waitpid pid v) x ≡ opened v x
  pub opened-still_running :
      (pid : ℕ) (v : O.World) (x : ℕ) → opened (O.still_running pid v).1 x ≡ opened v x
  pub opened-read : (fd n : ℕ) (v : O.World) (x : ℕ) → opened (O.read fd n v).1 x ≡ opened v x
  pub opened-write :
      (fd : ℕ) (bytes : Bytes) (v : O.World) (x : ℕ) → opened (O.write fd bytes v).1 x ≡ opened v x

module _ (O : Posix) (L : IsLawful O) where
  open O use {World, close}
  open L use {opened}

  abbrev pub held : Option ℕ → ℕ → ℕ
  held none x = 0
  held (some fd) x = one fd x

  -- The descriptors that are open are these and those of the process.
  abbrev pub Holds : (ℕ → ℕ) → Impl × World → Type 0
  Holds base (impl, w) =
      (x : ℕ) → opened w x ≡ held impl.stdin_write x + held impl.stdout_read x + base x

  -- A process without a child has no descriptors.
  abbrev pub IsTidy : Impl → Type 0
  IsTidy impl = impl.pid ≡ none → (impl.stdin_write ≡ none) × (impl.stdout_read ≡ none)

  abbrev pub Sound : (ℕ → ℕ) → Impl × World → Type 0
  Sound base (impl, w) = IsTidy impl × Holds base (impl, w)

  -- What the child is given, with the three pipes of a start.
  abbrev pub spawned : List Bytes → ℕ × ℕ → ℕ × ℕ → ℕ × ℕ → Spawn
  spawned argv inp out err = record { stdin = inp.0; stdout = out.1; errors = err.1; argv = argv }

  -- In a start in this world the three pipes are made, `err` being the third, and `fork` fails.
  abbrev pub ForkFails : List Bytes → World → ℕ × ℕ → Type 0
  ForkFails argv v err =
      (inp : ℕ × ℕ) × (u : World) × (O.pipe v ≡ (some inp, u))
      × (out : ℕ × ℕ) × (w : World) × (O.pipe u ≡ (some out, w))
      × (z : World) × (O.pipe w ≡ (some err, z))
      × ((O.fork (spawned argv inp out err) z).0 ≡ none)

  -- A process that has no child, whose start left the two ends of a pipe open.
  abbrev pub Leaks : (ℕ × ℕ → Type 0) → (ℕ → ℕ) → Impl × World → Type 0
  Leaks Fails base (impl, w) =
      (err : ℕ × ℕ) × Fails err
      × (impl ≡ no_impl)
      × Holds (λ x. ends (some err) x + base x) (impl, w)

  abbrev pub Leaves : (ℕ × ℕ → Type 0) → (ℕ → ℕ) → Impl × World → Type 0
  Leaves Fails base r = Sound base r ⊎ Leaks Fails base r

  executed-Sound :
      (in_write out_read err_read pid : ℕ) (base : ℕ → ℕ) (r : Bool × World)
      → ((x : ℕ) → opened r.1 x ≡ one in_write x + one out_read x + one err_read x + base x)
      → Sound base (executed O in_write out_read err_read pid r)
  unfolding executed
  executed-Sound in_write out_read err_read pid base (true, w) h = (
    λ e. absurd (cc e),
    λ x. omega (
      arith,
      h x,
      L.opened-waitpid pid (close out_read (close in_write (close err_read w))) x,
      L.opened-close out_read (close in_write (close err_read w)) x,
      L.opened-close in_write (close err_read w) x,
      L.opened-close err_read w x,
    ),
  )
  executed-Sound in_write out_read err_read pid base (false, w) h =
      (λ e. absurd (cc e), λ x. omega (arith, h x, L.opened-close err_read w x))

  -- Both pipes are open.
  close_four :
      (inp out : ℕ × ℕ) (base : ℕ → ℕ) (w : World)
      → ((x : ℕ) → opened w x ≡ ends (some inp) x + ends (some out) x + base x)
      → Holds base (no_impl, close out.1 (close out.0 (close inp.1 (close inp.0 w))))
  close_four inp out base w h x = omega (
    arith,
    h x,
    L.opened-close out.1 (close out.0 (close inp.1 (close inp.0 w))) x,
    L.opened-close out.0 (close inp.1 (close inp.0 w)) x,
    L.opened-close inp.1 (close inp.0 w) x,
    L.opened-close inp.0 w x,
  )

  forked-Leaves :
      (Fails : ℕ × ℕ → Type 0) (inp out err : ℕ × ℕ) (base : ℕ → ℕ) (r : Option ℕ × World)
      → (r.0 ≡ none → Fails err)
      → ((x : ℕ)
          → opened r.1 x ≡ ends (some err) x + (ends (some out) x + (ends (some inp) x + base x)))
      → Leaves Fails base (forked O inp out err r)
  unfolding forked
  forked-Leaves Fails inp out err base (none, w) fails h = inr (
    err,
    fails refl,
    refl,
    close_four inp out (λ x. ends (some err) x + base x) w (λ x. omega (arith, h x)),
  )
  forked-Leaves Fails inp out err base (some pid, w) fails h =
      let v = close err.1 (close out.1 (close inp.0 w)) in
      inl (
        executed-Sound inp.1 out.0 err.0 pid base (O.read_error err.0 v) (λ x. omega (
          arith,
          h x,
          L.opened-read_error err.0 v x,
          L.opened-close err.1 (close out.1 (close inp.0 w)) x,
          L.opened-close out.1 (close inp.0 w) x,
          L.opened-close inp.0 w x,
        )))

  with_err_pipe-Leaves :
      (Fails : ℕ × ℕ → Type 0) (argv : List Bytes) (inp out : ℕ × ℕ) (base : ℕ → ℕ)
      (r : Option (ℕ × ℕ) × World)
      → ((err : ℕ × ℕ) (z : World)
          → r ≡ (some err, z)
          → (O.fork (spawned argv inp out err) z).0 ≡ none
          → Fails err)
      → ((x : ℕ) → opened r.1 x ≡ ends r.0 x + (ends (some out) x + (ends (some inp) x + base x)))
      → Leaves Fails base (with_err_pipe O argv inp out r)
  unfolding with_err_pipe
  with_err_pipe-Leaves Fails argv inp out base (none, w) fails h =
      inl (λ e. (refl, refl), close_four inp out base w (λ x. omega (arith, h x)))
  with_err_pipe-Leaves Fails argv inp out base (some err, w) fails h =
      let child = spawned argv inp out err in
      forked-Leaves Fails inp out err base (O.fork child w) (fails err w refl)
        (λ x. L.opened-fork child w x ∙ h x)

  with_out_pipe-Leaves :
      (Fails : ℕ × ℕ → Type 0) (argv : List Bytes) (inp : ℕ × ℕ) (base : ℕ → ℕ)
      (r : Option (ℕ × ℕ) × World)
      → ((out : ℕ × ℕ) (w : World)
          → r ≡ (some out, w)
          → (err : ℕ × ℕ) (z : World) → O.pipe w ≡ (some err, z)
          → (O.fork (spawned argv inp out err) z).0 ≡ none
          → Fails err)
      → ((x : ℕ) → opened r.1 x ≡ ends r.0 x + (ends (some inp) x + base x))
      → Leaves Fails base (with_out_pipe O argv inp r)
  unfolding with_out_pipe
  with_out_pipe-Leaves Fails argv inp base (none, w) fails h = inl (
    λ e. (refl, refl),
    λ x. omega (arith, h x, L.opened-close inp.1 (close inp.0 w) x, L.opened-close inp.0 w x),
  )
  with_out_pipe-Leaves Fails argv inp base (some out, w) fails h =
      with_err_pipe-Leaves Fails argv inp out base (O.pipe w) (fails out w refl)
        (λ x. L.opened-pipe w x ∙ ap (λ n. ends (O.pipe w).0 x + n) (h x))

  with_in_pipe-Leaves :
      (argv : List Bytes) (v : World) (base : ℕ → ℕ) (r : Option (ℕ × ℕ) × World)
      → O.pipe v ≡ r
      → ((x : ℕ) → opened r.1 x ≡ ends r.0 x + base x)
      → Leaves (ForkFails argv v) base (with_in_pipe O argv r)
  unfolding with_in_pipe
  with_in_pipe-Leaves argv v base (none, w) e h = inl (λ e. (refl, refl), λ x. omega (arith, h x))
  with_in_pipe-Leaves argv v base (some inp, w) e h =
      with_out_pipe-Leaves (ForkFails argv v) argv inp base (O.pipe w)
        (λ out y e2 err z e3 failed. (inp, w, e, out, y, e2, z, e3, failed))
        (λ x. L.opened-pipe w x ∙ ap (λ n. ends (O.pipe w).0 x + n) (h x))

  -- The constructor leaves open what was open and what it holds, unless `fork` fails: then both ends of
  -- the third pipe stay open too.
  pub make_impl-Leaves :
      (executable : Bytes) (args : List Bytes) (w : World)
      → Leaves (ForkFails (executable ∷ args) w) (opened w) (make_impl O executable args w)
  unfolding make_impl
  make_impl-Leaves executable args w =
      with_in_pipe-Leaves (executable ∷ args) w (opened w) (O.pipe w) refl (L.opened-pipe w)
