-- ===== src/ThreadPool/Finish.antt =====
-- `waitUntilFinished` comes to an end: its threads are never stuck, and what is left to do falls.
use lsp_framework_noec.Base.{
  ℕ, zero, suc, ◌+◌, ◌*◌, ◌<◌, ◌≡◌, ◌⊎◌, refl, ap, List, [], ◌∷◌, some, length, arith, get_elem?,
  inl, inr,
}
use lsp_framework_noec.ThreadPool.Pool.{
  Worker, ready, asleep, exited, running, open_phase, joining, Pool, worker_round, complete,
  begin_finish, notify_all, end_finish, notify_reopened,
}
use lsp_framework_noec.ThreadPool.Steps.{Step, Reachable}
use lsp_framework_noec.ThreadPool.Weights.{weigh, is_asleep, is_active, weigh-set}
use lsp_framework_noec.ThreadPool.Invariant.{
  Reachable-Inv, add_task_cases, takes, waits, leaves, Round-cases,
}

-- The steps that a worker has before it.
abbrev pub steps_left : Worker → ℕ
steps_left ready = 1
steps_left asleep = 0
steps_left exited = 0
steps_left (running t) = 2

-- What is left to do while threads are joined.
abbrev pub work : Pool → ℕ
work p = 2 * length p.task_queue + weigh steps_left p.workers + p.to_notify

-- A worker that is at work can be found.
data AtWork (ws : List Worker) : Type 0 where
  about : (i : ℕ) → get_elem? ws i ≡ some ready → AtWork ws
  busy : (i t : ℕ) → get_elem? ws i ≡ some (running t) → AtWork ws

later_worker : (w : Worker) (ws : List Worker) → AtWork ws → AtWork (w ∷ ws)
later_worker w ws (about i e) = about (suc i) e
later_worker w ws (busy i t e) = busy (suc i) t e

find_worker : (ws : List Worker) → 0 < weigh is_active ws → AtWork ws
find_worker [] h = absurd (omega arith)
find_worker (ready ∷ ws) h = about zero refl
find_worker (running t ∷ ws) h = busy zero t refl
find_worker (asleep ∷ ws) h = later_worker asleep ws (find_worker ws (omega arith))
find_worker (exited ∷ ws) h = later_worker exited ws (find_worker ws (omega arith))

worker-Step : (p : Pool) → AtWork p.workers → (q : Pool) × Step p q
worker-Step p (about i e) = (worker_round i p, Step.round i e refl)
worker-Step p (busy i t e) = (complete i t p, Step.execute i t e refl)

zero_or_more : (n : ℕ) → (n ≡ 0) ⊎ (0 < n)
zero_or_more zero = inl refl
zero_or_more (suc n) = inr (omega arith)

possible_step :
    (p : Pool) → p.phase ≡ joining → weigh is_asleep p.workers ≡ 0 → (q : Pool) × Step p q
possible_step p j awake = elim (zero_or_more (weigh is_active p.workers)) [
  | inl idle ↦ (end_finish p, Step.finish j awake idle refl)
  | inr more ↦ worker-Step p (find_worker p.workers more)
]

round-work :
    (i : ℕ) (p : Pool)
    → p.phase ≡ joining
    → get_elem? p.workers i ≡ some ready
    → ((worker_round i p).phase ≡ joining) × (work (worker_round i p) < work p)
round-work i p j g = elim (Round-cases i p) [
  | takes t ts e same ↦
      let moved = weigh-set steps_left p.workers i (running t) ready g in
      let filled : length p.task_queue ≡ suc (length ts) = ap length e in rw same (j, omega arith)
  | waits e o same ↦ absurd (cc (j, o))
  | leaves e o same ↦
      let moved = weigh-set steps_left p.workers i exited ready g in rw same (j, omega arith)
]

no_sleeper : (ws : List Worker) (i : ℕ) → weigh is_asleep ws ≡ 0 → get_elem? ws i ≡ some asleep → ⊥
no_sleeper [] i z e = cc e
no_sleeper (w ∷ ws) zero z e = let same : is_asleep w ≡ 1 = ground arith in omega arith
no_sleeper (w ∷ ws) (suc i) z e = no_sleeper ws i (omega arith) e

-- While threads are joined, each step ends the joining or leaves less to do, so that it ends after
-- finitely many steps.
pub joining-work :
    {n m : ℕ} {p q : Pool}
    → Reachable n m p
    → p.phase ≡ joining
    → Step p q
    → (q.phase ≡ open_phase) ⊎ ((q.phase ≡ joining) × (work q < work p))
unfolding complete begin_finish notify_all end_finish notify_reopened
joining-work {p = p} {q = q} r j (Step.add t e) =
    let (o, cases) = add_task_cases t p q e in absurd (cc (j, o))
joining-work {p = p} r j (Step.notify_worker i n g e) =
    absurd (no_sleeper p.workers i ((Reachable-Inv r).awake j) g)
joining-work r j (Step.notify_nobody n z e) = inr (rw e (j, omega arith))
joining-work r j (Step.notify_caller n z e) = inr (rw e (j, omega arith))
joining-work {p = p} r j (Step.spurious_wake i g e) =
    absurd (no_sleeper p.workers i ((Reachable-Inv r).awake j) g)
joining-work {p = p} r j (Step.round i g e) = inr (rw e (round-work i p j g))
joining-work {p = p} r j (Step.execute i t g e) =
    let moved = weigh-set steps_left p.workers i ready (running t) g in inr (rw e (j, omega arith))
joining-work r j (Step.begin o f e) = absurd (cc (j, o))
joining-work r j (Step.wake_up c e) = absurd (cc (j, c))
joining-work r j (Step.reopen o e) =
    let again = (Reachable-Inv r).reopening_open o in absurd (cc (j, again))
joining-work r j (Step.finish k a b e) = inl (rw e refl)

-- While threads are joined, a step that takes `waitUntilFinished` further is possible, without a wake-up
-- from outside: a worker that is at work goes on, which leaves less to do, or all threads are gone
-- and the joining ends.
pub joining-Step :
    {n m : ℕ} {p : Pool}
    → Reachable n m p
    → p.phase ≡ joining
    → (q : Pool) × Step p q × ((q.phase ≡ open_phase) ⊎ (work q < work p))
joining-Step {p = p} r j =
    let (q, s) = possible_step p j ((Reachable-Inv r).awake j) in
    elim (joining-work r j s) [ inl o ↦ (q, s, inl o) | inr (k, less) ↦ (q, s, inr less) ]
