-- ===== src/Process/Lifetime.antt =====
-- From the start of a process to its end.
use lsp_framework_noec.Base.{ℕ, ◌+◌, ◌≡◌, ◌⊎◌, inl, inr, ap, Bytes, List, ◌∷◌, none, some}
use lsp_framework_noec.Process.Child.{Posix, no_impl, make_impl}
use lsp_framework_noec.Process.Life.{Process, start, wait, Lives}
use lsp_framework_noec.Process.Handles.{ends, IsLawful, Leaves, ForkFails, make_impl-Leaves}
use lsp_framework_noec.Process.Closed.{Kept, Lives-Kept, wait-Kept}

module _ (O : Posix) (L : IsLawful O) where
  open O use {World}
  open L use {opened}

  -- `~Process`.
  abbrev pub ended : Process O × World → World
  ended (p, w) = (wait O p w).1

  ended_lem :
      (base : ℕ → ℕ) (p : Process O × World)
      → Kept O L base p
      → (x : ℕ) → opened (ended p) x ≡ base x
  unfolding wait
  ended_lem base (none, w) h = h
  ended_lem base (some impl, w) h = wait-Kept O L base (some impl) w h

  Leaves-ended :
      {executable : Bytes} {args : List Bytes} {v : World} {p : Process O × World}
      → Leaves O L (ForkFails O L (executable ∷ args) v) (opened v) (make_impl O executable args v)
      → Lives O executable args v p
      → ((x : ℕ) → opened (ended p) x ≡ opened v x)
        ⊎ ((err : ℕ × ℕ) × ForkFails O L (executable ∷ args) v err
            × ((make_impl O executable args v).0 ≡ no_impl)
            × ((x : ℕ) → opened (ended p) x ≡ ends (some err) x + opened v x))
  unfolding start
  Leaves-ended {v = v} {p} (inl sound) life =
      inl (ended_lem (opened v) p (Lives-Kept O L (opened v) sound life))
  Leaves-ended {v = v} {p} (inr (err, fails, failed, h)) life =
      let base : ℕ → ℕ = λ x. ends (some err) x + opened v x in
      inr (
        err,
        fails,
        failed,
        ended_lem base p (
            Lives-Kept O L base
              (λ e. (ap (λ i. i.stdin_write) failed, ap (λ i. i.stdout_read) failed), h) life),
      )

  -- A process that was started, whatever its owner did with it and whenever it was destroyed, leaves
  -- open the descriptors that were open before it was started and no others; or in its own start all three
  -- pipes were made and `fork` failed, and then it leaves the two ends of the third pipe open too.
  pub Lives-ended :
      {executable : Bytes} {args : List Bytes} {v : World} {p : Process O × World}
      → Lives O executable args v p
      → ((x : ℕ) → opened (ended p) x ≡ opened v x)
        ⊎ ((err : ℕ × ℕ) × ForkFails O L (executable ∷ args) v err
            × ((make_impl O executable args v).0 ≡ no_impl)
            × ((x : ℕ) → opened (ended p) x ≡ ends (some err) x + opened v x))
  Lives-ended {executable} {args} {v} life =
      Leaves-ended (make_impl-Leaves O L executable args v) life
