-- ===== src/Process/Life.antt =====
-- `Process`: the object that holds a child, and what its calls do with it.
use lsp_framework_noec.Base.{ℕ, Bool, false, ◌≡◌, Bytes, List, Option, none, some, if◌then◌else◌}
use lsp_framework_noec.Process.Child.{Posix, Impl, make_impl, check_running, destroy}
use lsp_framework_noec.Process.Child
use lsp_framework_noec.Process.Transfer

module _ (O : Posix) where
  open O use {World}

  -- `Process`, whose `m_impl` may be empty.
  abbrev pub Process : Type 0
  Process = Option Impl

  unfoldable pub start : Bytes → List Bytes → World → Process × World
  start executable args w = let (impl, v) = make_impl O executable args w in (some impl, v)

  unfoldable pub is_running : Process → World → Bool × Process × World
  is_running none w = (false, none, w)
  is_running (some impl) w =
      let (running, impl', v) = check_running O impl w in (running, some impl', v)

  -- `none` for -1.
  unfoldable pub id_of : Bool × Process × World → Option ℕ × Process × World
  id_of (running, none, w) = (none, none, w)
  id_of (running, some impl, w) = (if running then impl.pid else none, some impl, w)

  unfoldable pub id : Process → World → Option ℕ × Process × World
  id p w = id_of (is_running p w)

  -- `m_impl.reset()` behind `wait` and `terminate`.
  abbrev reset : Impl × World → Process × World
  reset (impl, w) = (none, destroy O impl w)

  unfoldable pub wait : Process → World → Process × World
  wait none w = (none, w)
  wait (some impl) w = reset (Child.wait O impl w)

  unfoldable pub terminate : Process → World → Process × World
  terminate none w = (none, w)
  terminate (some impl) w = reset (Child.terminate O impl w)

  -- What the owner of a process may do with it. `stdIO` needs a process that was started.
  pub data Use (p q : Process × World) : Type 0 where
    asks : q ≡ ((is_running p.0 p.1).1, (is_running p.0 p.1).2) → Use p q
    asks_id : q ≡ ((id p.0 p.1).1, (id p.0 p.1).2) → Use p q
    waits : q ≡ wait p.0 p.1 → Use p q
    terminates : q ≡ terminate p.0 p.1 → Use p q
    reads :
        (fuel size : ℕ) (impl : Impl)
        → p.0 ≡ some impl
        → q ≡ (some impl, (Transfer.read O fuel size impl p.1).1)
        → Use p q
    writes :
        (fuel : ℕ) (buffer : Bytes) (impl : Impl)
        → p.0 ≡ some impl
        → q ≡ (some impl, (Transfer.write O fuel buffer impl p.1).1)
        → Use p q

  -- A process that was started in a world, and what it and the world may have become.
  pub data Lives (executable : Bytes) (args : List Bytes) (w : World)
      : Process × World → Type 0 where
    started : Lives executable args w (start executable args w)
    used : {p q : Process × World} → Lives executable args w p → Use p q → Lives executable args w q
