-- ===== src/ThreadPool/Tasks.antt =====
-- What a `ThreadPool` promises of its tasks.
use lsp_framework_noec.Base.{
  ℕ, ◌+◌, ◌≤◌, ◌<◌, ◌≡◌, ◌⊎◌, true, refl, ◌∙◌, ap, List, [], ◌∷◌, ◌++◌, some, length, arith,
  get_elem?, inl, inr,
}
use lsp_framework_noec.ThreadPool.Pool.{
  ready, asleep, exited, running, closing, joining, Pool, new_pool, worker_round, complete,
  begin_finish, notify_all, end_finish, notify_reopened,
}
use lsp_framework_noec.ThreadPool.Steps.{Step, Reachable}
use lsp_framework_noec.ThreadPool.Weights.{
  weigh, runs, is_active, is_exited, count, weigh-set, weigh-append, count-append, length-weigh,
  wake_all-runs, weigh-ready_workers, runs-le-is_active,
}
use lsp_framework_noec.ThreadPool.Invariant.{
  Inv, Reachable-Inv, add_task_cases, takes, waits, leaves, Round-cases, thread_limit,
}

-- A task that was taken is being executed or done.
abbrev Accounted : ℕ → Pool → Type 0
Accounted t p = count t p.started ≡ count t p.completed + weigh (runs t) p.workers

round-Accounted :
    (t i : ℕ) (p : Pool)
    → Accounted t p
    → get_elem? p.workers i ≡ some ready
    → Accounted t (worker_round i p)
round-Accounted t i p h g = elim (Round-cases i p) [
  | takes u us e same ↦
      let moved = weigh-set (runs t) p.workers i (running u) ready g in
      let more = count-append t p.started (u ∷ []) in rw same (omega arith)
  | waits e o same ↦
      let moved = weigh-set (runs t) p.workers i asleep ready g in rw same (omega arith)
  | leaves e o same ↦
      let moved = weigh-set (runs t) p.workers i exited ready g in rw same (omega arith)
]

Step-Accounted :
    (t : ℕ) {limit : ℕ} {p q : Pool} → Inv limit p → Accounted t p → Step p q → Accounted t q
unfolding complete begin_finish notify_all end_finish notify_reopened
Step-Accounted t {p = p} {q = q} v h (Step.add u e) =
    let (o, cases) = add_task_cases u p q e in
    let more = weigh-append (runs t) p.workers (ready ∷ []) in
    elim cases [ inl (same, w) ↦ rw same h | inr (same, few) ↦ rw same (omega arith) ]
Step-Accounted t {p = p} v h (Step.notify_worker i n g e) =
    let moved = weigh-set (runs t) p.workers i ready asleep g in rw e (omega arith)
Step-Accounted t v h (Step.notify_nobody n z e) = rw e h
Step-Accounted t v h (Step.notify_caller n z e) = rw e h
Step-Accounted t {p = p} v h (Step.spurious_wake i g e) =
    let moved = weigh-set (runs t) p.workers i ready asleep g in rw e (omega arith)
Step-Accounted t {p = p} v h (Step.round i g e) = rw e (round-Accounted t i p h g)
Step-Accounted t {p = p} v h (Step.execute i u g e) =
    let moved = weigh-set (runs t) p.workers i ready (running u) g in
    let more = count-append t p.completed (u ∷ []) in rw e (omega arith)
Step-Accounted t v h (Step.begin o f e) = rw e h
Step-Accounted t {p = p} v h (Step.wake_up c e) =
    let same = wake_all-runs t p.workers in rw e (omega arith)
Step-Accounted t {p = p} v h (Step.reopen o e) =
    let same = wake_all-runs t p.workers in rw e (omega arith)
Step-Accounted t {p = p} v h (Step.finish j a b e) =
    let idle = runs-le-is_active t p.workers in rw e (omega arith)

Reachable-Accounted : {n m : ℕ} {p : Pool} (t : ℕ) → Reachable n m p → Accounted t p
unfolding new_pool
Reachable-Accounted {n} t Reachable.start = omega (arith, weigh-ready_workers (runs t) refl n)
Reachable-Accounted t (Reachable.next r s) =
    Step-Accounted t (Reachable-Inv r) (Reachable-Accounted t r) s

-- In every state that a pool comes to, each task that was added is in the queue, with a worker or
-- done, as often as it was added; and tasks are taken in the order in which they were added.
pub Reachable-accounts :
    {n m : ℕ} {p : Pool} (t : ℕ)
    → Reachable n m p
    → (count t p.added ≡ count t p.completed + weigh (runs t) p.workers + count t p.task_queue)
      × (p.added ≡ p.started ++ p.task_queue)
Reachable-accounts {p = p} t r =
    let order = (Reachable-Inv r).order in
    let split = ap (count t) order ∙ count-append t p.started p.task_queue in
    let known = Reachable-Accounted t r in (omega arith, order)

empty_of_length : (ts : List ℕ) → length ts ≡ 0 → ts ≡ []
empty_of_length [] e = refl
empty_of_length (t ∷ ts) e = absurd (omega arith)

-- When all threads can be joined, `waitUntilFinished` leaves no task behind: the queue is empty, and
-- each task was done as often as it was added.
pub Reachable-finished :
    {n m : ℕ} {p : Pool} (t : ℕ)
    → Reachable n m p
    → p.phase ≡ joining
    → weigh is_active p.workers ≡ 0
    → (p.task_queue ≡ []) × (count t p.completed ≡ count t p.added)
Reachable-finished {p = p} t r j idle =
    let v = Reachable-Inv r in
    let (known, order) = Reachable-accounts t r in
    let parts = length-weigh p.workers in
    let alone = runs-le-is_active t p.workers in
    let sleepers = v.awake j in
    let bare : length p.task_queue ≡ 0 = ground arith in
    let queue_empty = empty_of_length p.task_queue bare in
    let none_queued : count t p.task_queue ≡ 0 = ap (count t) queue_empty in
    (queue_empty, omega arith)

-- While tasks are in the queue, a worker is at work, or a notification or one of the two `notify_all`
-- of `waitUntilFinished` is to come: no wake-up is lost, though a `notify_one` may reach a caller of
-- `addTask` that still waits.
pub Reachable-heard :
    {n m : ℕ} {p : Pool}
    → Reachable n m p
    → 0 < length p.task_queue
    → (0 < p.to_notify)
      ⊎ (0 < weigh is_active p.workers)
      ⊎ (p.phase ≡ closing)
      ⊎ (p.reopening ≡ true)
Reachable-heard r l = (Reachable-Inv r).heard l

-- While threads are joined, no worker waits for a notification, so each of them is at work or gone.
pub Reachable-joining :
    {n m : ℕ} {p : Pool}
    → Reachable n m p
    → p.phase ≡ joining
    → length p.workers ≡ weigh is_active p.workers + weigh is_exited p.workers
Reachable-joining {p = p} r j = omega (arith, (Reachable-Inv r).awake j, length-weigh p.workers)

-- A pool never has more threads than it started with or than its limit allows, whichever is more.
pub Reachable-limited : {n m : ℕ} {p : Pool} → Reachable n m p → length p.workers ≤ thread_limit n m
Reachable-limited r = (Reachable-Inv r).limited
