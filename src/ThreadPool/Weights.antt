-- ===== src/ThreadPool/Weights.antt =====
-- Sums over the workers of a pool, and how a change to one worker changes them.
use lsp_framework_noec.Base.{
  ℕ, zero, suc, ◌+◌, ◌≤◌, ◌≡◌, refl, List, [], ◌∷◌, ◌++◌, some, length, arith, set, get_elem?, ◌==◌,
  if◌then◌else◌,
}
use lsp_framework_noec.ThreadPool.Pool.{
  Worker, ready, asleep, exited, running, wake_all, ready_workers,
}

abbrev pub weigh : (Worker → ℕ) → List Worker → ℕ
weigh f [] = 0
weigh f (w ∷ ws) = f w + weigh f ws

abbrev pub is_asleep : Worker → ℕ
is_asleep asleep = 1
is_asleep _ = 0

abbrev pub is_exited : Worker → ℕ
is_exited exited = 1
is_exited _ = 0

-- Neither asleep nor exited: ready or executing a task.
abbrev pub is_active : Worker → ℕ
is_active ready = 1
is_active asleep = 0
is_active exited = 0
is_active (running t) = 1

abbrev pub is_one : Worker → ℕ
is_one w = 1

-- Executing the task `t`.
abbrev pub runs : ℕ → Worker → ℕ
runs t (running u) = if u == t then 1 else 0
runs t _ = 0

-- How often a task occurs in a list.
abbrev pub count : ℕ → List ℕ → ℕ
count t [] = 0
count t (u ∷ us) = (if u == t then 1 else 0) + count t us

pub weigh-set :
    (f : Worker → ℕ) (ws : List Worker) (i : ℕ) (v w : Worker)
    → get_elem? ws i ≡ some w
    → weigh f (set ws i v) + f w ≡ weigh f ws + f v
weigh-set f [] i v w e = cc
weigh-set f (x ∷ ws) zero v w e = let same : f x ≡ f w = cc in omega arith
weigh-set f (x ∷ ws) (suc i) v w e = omega (arith, weigh-set f ws i v w e)

pub weigh-append :
    (f : Worker → ℕ) (ws vs : List Worker) → weigh f (ws ++ vs) ≡ weigh f ws + weigh f vs
weigh-append f [] vs = omega arith
weigh-append f (w ∷ ws) vs = omega (arith, weigh-append f ws vs)

pub weigh-is_one : (ws : List Worker) → weigh is_one ws ≡ length ws
weigh-is_one [] = refl
weigh-is_one (w ∷ ws) = omega (arith, weigh-is_one ws)

-- Every worker is asleep, active or exited.
pub length-weigh :
    (ws : List Worker) → length ws ≡ weigh is_asleep ws + weigh is_active ws + weigh is_exited ws
length-weigh [] = omega arith
length-weigh (ready ∷ ws) = omega (arith, length-weigh ws)
length-weigh (asleep ∷ ws) = omega (arith, length-weigh ws)
length-weigh (exited ∷ ws) = omega (arith, length-weigh ws)
length-weigh (running t ∷ ws) = omega (arith, length-weigh ws)

pub runs-le-is_active : (t : ℕ) (ws : List Worker) → weigh (runs t) ws ≤ weigh is_active ws
runs-le-is_active t [] = omega arith
runs-le-is_active t (ready ∷ ws) = omega (arith, runs-le-is_active t ws)
runs-le-is_active t (asleep ∷ ws) = omega (arith, runs-le-is_active t ws)
runs-le-is_active t (exited ∷ ws) = omega (arith, runs-le-is_active t ws)
runs-le-is_active t (running u ∷ ws) = ground (arith, runs-le-is_active t ws)

-- A wake-up of all leaves none asleep.
pub wake_all_asleep : (ws : List Worker) → weigh is_asleep (wake_all ws) ≡ 0
wake_all_asleep [] = refl
wake_all_asleep (ready ∷ ws) = omega (arith, wake_all_asleep ws)
wake_all_asleep (asleep ∷ ws) = omega (arith, wake_all_asleep ws)
wake_all_asleep (exited ∷ ws) = omega (arith, wake_all_asleep ws)
wake_all_asleep (running t ∷ ws) = omega (arith, wake_all_asleep ws)

pub wake_all_exited : (ws : List Worker) → weigh is_exited (wake_all ws) ≡ weigh is_exited ws
wake_all_exited [] = refl
wake_all_exited (ready ∷ ws) = omega (arith, wake_all_exited ws)
wake_all_exited (asleep ∷ ws) = omega (arith, wake_all_exited ws)
wake_all_exited (exited ∷ ws) = omega (arith, wake_all_exited ws)
wake_all_exited (running t ∷ ws) = omega (arith, wake_all_exited ws)

pub wake_all-runs : (t : ℕ) (ws : List Worker) → weigh (runs t) (wake_all ws) ≡ weigh (runs t) ws
wake_all-runs t [] = refl
wake_all-runs t (ready ∷ ws) = omega (arith, wake_all-runs t ws)
wake_all-runs t (asleep ∷ ws) = omega (arith, wake_all-runs t ws)
wake_all-runs t (exited ∷ ws) = omega (arith, wake_all-runs t ws)
wake_all-runs t (running u ∷ ws) = omega (arith, wake_all-runs t ws)

pub length-wake_all : (ws : List Worker) → length (wake_all ws) ≡ length ws
length-wake_all [] = refl
length-wake_all (w ∷ ws) = omega (arith, length-wake_all ws)

pub length-set : (ws : List Worker) (i : ℕ) (v : Worker) → length (set ws i v) ≡ length ws
length-set [] i v = refl
length-set (w ∷ ws) zero v = refl
length-set (w ∷ ws) (suc i) v = omega (arith, length-set ws i v)

pub length-ready_workers : (n : ℕ) → length (ready_workers n) ≡ n
length-ready_workers zero = refl
length-ready_workers (suc n) = omega (arith, length-ready_workers n)

-- Workers that are new are none of the rest.
pub weigh-ready_workers : (f : Worker → ℕ) → f ready ≡ 0 → (n : ℕ) → weigh f (ready_workers n) ≡ 0
weigh-ready_workers f e zero = refl
weigh-ready_workers f e (suc n) = omega (arith, weigh-ready_workers f e n)

pub count-append : (t : ℕ) (us vs : List ℕ) → count t (us ++ vs) ≡ count t us + count t vs
count-append t [] vs = omega arith
count-append t (u ∷ us) vs = ground (arith, count-append t us vs)
