-- ===== src/ThreadPool/Invariant.antt =====
-- What holds of a pool between any two steps.
use lsp_framework_noec.Base.{
  ℕ, zero, suc, true, ◌+◌, ◌-◌, ◌≤◌, ◌<◌, ◌≡◌, ◌≢◌, ◌⊎◌, refl, sym, ◌∙◌, ap, List, [], ◌∷◌, ◌++◌,
  append_assoc, some, length, length-append, arith, set, get_elem?, inl, inr,
}
use lsp_framework_noec.ThreadPool.Pool.{
  Worker, ready, asleep, exited, running, Phase, open_phase, closing, joining, Pool, new_pool,
  set_worker, add_task, push_task, add_thread, worker_round, complete, begin_finish, notify_all,
  end_finish, notify_reopened, wake_all, at_least_one, take_task,
}
use lsp_framework_noec.ThreadPool.Steps.{Step, Reachable}
use lsp_framework_noec.ThreadPool.Weights

-- The greater of the threads that a pool starts with and those that it may add.
abbrev pub thread_limit : ℕ → ℕ → ℕ
thread_limit initial_threads max_threads =
    initial_threads + (at_least_one max_threads - initial_threads)

pub record Inv (limit : ℕ) (p : Pool) : Type 0 where
  -- Tasks are taken in the order in which they were added.
  pub order : p.added ≡ p.started ++ p.task_queue
  pub served : 0 < length p.task_queue → 0 < length p.workers
  pub exited_open : p.phase ≡ open_phase → Weights.weigh Weights.is_exited p.workers ≡ 0
  pub exited_empty : 0 < Weights.weigh Weights.is_exited p.workers → length p.task_queue ≡ 0
  pub awake : p.phase ≡ joining → Weights.weigh Weights.is_asleep p.workers ≡ 0
  -- No wake-up is lost.
  pub heard :
      0 < length p.task_queue
      → (0 < p.to_notify)
        ⊎ (0 < Weights.weigh Weights.is_active p.workers)
        ⊎ (p.phase ≡ closing)
        ⊎ (p.reopening ≡ true)
  pub reopening_open : p.reopening ≡ true → p.phase ≡ open_phase
  pub limited : length p.workers ≤ limit
  pub limit_kept : p.max_threads ≤ limit
  pub some_limit : 0 < p.max_threads

-- The sums over the workers behind a change to one of them.
record Changed (ws : List Worker) (i : ℕ) (v w : Worker) : Type 0 where
  asleep_sum :
      Weights.weigh Weights.is_asleep (set ws i v) + Weights.is_asleep w
      ≡ Weights.weigh Weights.is_asleep ws + Weights.is_asleep v
  active_sum :
      Weights.weigh Weights.is_active (set ws i v) + Weights.is_active w
      ≡ Weights.weigh Weights.is_active ws + Weights.is_active v
  exited_sum :
      Weights.weigh Weights.is_exited (set ws i v) + Weights.is_exited w
      ≡ Weights.weigh Weights.is_exited ws + Weights.is_exited v
  size : length (set ws i v) ≡ length ws

changed : (ws : List Worker) (i : ℕ) (v w : Worker) → get_elem? ws i ≡ some w → Changed ws i v w
changed ws i v w e = record {
  asleep_sum = Weights.weigh-set Weights.is_asleep ws i v w e;
  active_sum = Weights.weigh-set Weights.is_active ws i v w e;
  exited_sum = Weights.weigh-set Weights.is_exited ws i v w e;
  size = Weights.length-set ws i v;
}

-- What `addTask` does to a pool that is open.
pub add_task_cases :
    (t : ℕ) (p q : Pool)
    → add_task t p ≡ some q
    → (p.phase ≡ open_phase)
      × (((q ≡ push_task t p) × (0 < length p.workers))
          ⊎ ((q ≡ add_thread (push_task t p))
              × ((length p.workers < p.max_threads) ⊎ (length p.workers ≡ 0))))
unfolding add_task
add_task_cases t p q e = ground arith

push_task-Inv :
    {limit : ℕ} (t : ℕ) (p : Pool)
    → Inv limit p
    → p.phase ≡ open_phase
    → 0 < length p.workers
    → Inv limit (push_task t p)
push_task-Inv t p h o w =
    let queued = append_assoc p.started p.task_queue (t ∷ []) in
    record {
      order = ap (λ ts. ts ++ t ∷ []) h.order ∙ queued;
      served = λ l. w;
      exited_open = h.exited_open;
      exited_empty = λ x. absurd (omega (arith, h.exited_open o));
      awake = h.awake;
      heard = λ l. inl (omega arith);
      limited = h.limited;
      reopening_open = h.reopening_open;
      limit_kept = h.limit_kept;
      some_limit = h.some_limit;
    }

add_thread-Inv :
    {limit : ℕ} (t : ℕ) (p : Pool)
    → Inv limit p
    → p.phase ≡ open_phase
    → (length p.workers < p.max_threads) ⊎ (length p.workers ≡ 0)
    → Inv limit (add_thread (push_task t p))
add_thread-Inv t p h o few =
    let queued = append_assoc p.started p.task_queue (t ∷ []) in
    let more = length-append p.workers (ready ∷ []) in
    let more_exited = Weights.weigh-append Weights.is_exited p.workers (ready ∷ []) in
    let none_exited = h.exited_open o in
    record {
      order = ap (λ ts. ts ++ t ∷ []) h.order ∙ queued;
      served = λ l. omega arith;
      exited_open = λ x. omega arith;
      exited_empty = λ x. absurd (omega arith);
      awake = λ j. absurd (ground arith);
      heard = λ l. inl (omega arith);
      limited = ground arith;
      reopening_open = h.reopening_open;
      limit_kept = h.limit_kept;
      some_limit = h.some_limit;
    }

-- A worker's round takes the first task, or ends in a wait or behind the loop.
pub data Round (i : ℕ) (p : Pool) : Type 0 where
  takes :
      (t : ℕ) (ts : List ℕ)
      → p.task_queue ≡ t ∷ ts
      → worker_round i p ≡ take_task i (t ∷ ts) p
      → Round i p
  waits :
      p.task_queue ≡ []
      → p.phase ≡ open_phase
      → worker_round i p ≡ set_worker i asleep p
      → Round i p
  leaves :
      p.task_queue ≡ []
      → p.phase ≢ open_phase
      → worker_round i p ≡ set_worker i exited p
      → Round i p

Round-of :
    (i : ℕ) (p : Pool) (ts : List ℕ) → p.task_queue ≡ ts → (f : Phase) → p.phase ≡ f → Round i p
unfolding worker_round
Round-of i p [] e open_phase o = Round.waits e o (rw (e, o) refl)
Round-of i p [] e closing o = Round.leaves e (λ x. cc) (rw (e, o) refl)
Round-of i p [] e joining o = Round.leaves e (λ x. cc) (rw (e, o) refl)
Round-of i p (t ∷ ts) e open_phase o = Round.takes t ts e (rw (e, o) refl)
Round-of i p (t ∷ ts) e closing o = Round.takes t ts e (rw (e, o) refl)
Round-of i p (t ∷ ts) e joining o = Round.takes t ts e (rw (e, o) refl)

pub Round-cases : (i : ℕ) (p : Pool) → Round i p
Round-cases i p = Round-of i p p.task_queue refl p.phase refl

taken-Inv :
    {limit : ℕ} (i t : ℕ) (ts : List ℕ) (p : Pool)
    → Inv limit p
    → get_elem? p.workers i ≡ some ready
    → p.task_queue ≡ t ∷ ts
    → Inv limit (take_task i (t ∷ ts) p)
taken-Inv i t ts p h g e =
    let c = changed p.workers i (running t) ready g in
    let parts = Weights.length-weigh p.workers in
    let filled : length p.task_queue ≡ suc (length ts) = ap length e in
    record {
      order = h.order ∙ ap (λ us. p.started ++ us) e ∙ sym (append_assoc p.started (t ∷ []) ts);
      served = ground arith;
      exited_open = ground arith;
      exited_empty = ground arith;
      awake = ground arith;
      heard = ground arith;
      limited = ground arith;
      reopening_open = h.reopening_open;
      limit_kept = h.limit_kept;
      some_limit = h.some_limit;
    }

round-Inv :
    {limit : ℕ} (i : ℕ) (p : Pool)
    → Inv limit p
    → get_elem? p.workers i ≡ some ready
    → Inv limit (worker_round i p)
round-Inv i p h g = elim (Round-cases i p) [
  | takes t ts e same ↦ rw same (taken-Inv i t ts p h g e)
  | waits e o same ↦
      let c = changed p.workers i asleep ready g in
      let bare : length p.task_queue ≡ 0 = ap length e in rw same (ground arith)
  | leaves e o same ↦
      let c = changed p.workers i exited ready g in
      let bare : length p.task_queue ≡ 0 = ap length e in rw same (ground arith)
]

Step-Inv : {limit : ℕ} {p q : Pool} → Inv limit p → Step p q → Inv limit q
unfolding add_task worker_round complete begin_finish notify_all end_finish notify_reopened
Step-Inv {p = p} {q = q} h (Step.add t e) =
    let (o, cases) = add_task_cases t p q e in
    elim cases [
      | inl (same, w) ↦ rw same (push_task-Inv t p h o w)
      | inr (same, few) ↦ rw same (add_thread-Inv t p h o few)
    ]
Step-Inv {p = p} h (Step.notify_worker i n g e) =
    let c = changed p.workers i ready asleep g in rw e (ground arith)
Step-Inv {p = p} h (Step.notify_nobody n z e) =
    rw e (ground (arith, Weights.length-weigh p.workers))
Step-Inv {p = p} h (Step.notify_caller n z e) =
    rw e (ground (arith, Weights.length-weigh p.workers))
Step-Inv {p = p} h (Step.spurious_wake i g e) =
    let c = changed p.workers i ready asleep g in rw e (ground arith)
Step-Inv {p = p} h (Step.round i g e) = rw e (round-Inv i p h g)
Step-Inv {p = p} h (Step.execute i t g e) =
    let c = changed p.workers i ready (running t) g in rw e (ground arith)
Step-Inv h (Step.begin o f e) = rw e (ground arith)
Step-Inv {p = p} h (Step.wake_up c e) =
    let woken = Weights.wake_all_asleep p.workers in
    let left = Weights.wake_all_exited p.workers in
    let same = Weights.length-wake_all p.workers in
    let parts = Weights.length-weigh (wake_all p.workers) in rw e (ground arith)
Step-Inv {p = p} h (Step.reopen o e) =
    let woken = Weights.wake_all_asleep p.workers in
    let left = Weights.wake_all_exited p.workers in
    let same = Weights.length-wake_all p.workers in
    let parts = Weights.length-weigh (wake_all p.workers) in
    let again = h.reopening_open o in rw e (ground arith)
Step-Inv {p = p} h (Step.finish j a b e) = rw e (ground (arith, Weights.length-weigh p.workers))

at_least_one_pos : (m : ℕ) → 0 < at_least_one m
at_least_one_pos zero = omega arith
at_least_one_pos (suc m) = omega arith

new_pool-Inv :
    (initial_threads max_threads : ℕ)
    → Inv (thread_limit initial_threads max_threads) (new_pool initial_threads max_threads)
unfolding new_pool
new_pool-Inv n m =
    let sizes = Weights.length-ready_workers n in
    let sleepers = Weights.weigh-ready_workers Weights.is_asleep refl n in
    let leavers = Weights.weigh-ready_workers Weights.is_exited refl n in
    let cap : 0 < at_least_one m = at_least_one_pos m in
    record {
      order = refl;
      served = λ l. absurd (omega arith);
      exited_open = λ o. leavers;
      exited_empty = λ x. refl;
      awake = λ j. sleepers;
      heard = λ l. absurd (omega arith);
      limited = omega arith;
      reopening_open = λ e. refl;
      limit_kept = omega arith;
      some_limit = cap;
    }

-- The invariant holds in every state that a pool comes to.
pub Reachable-Inv : {n m : ℕ} {p : Pool} → Reachable n m p → Inv (thread_limit n m) p
Reachable-Inv {n} {m} Reachable.start = new_pool-Inv n m
Reachable-Inv (Reachable.next r s) = Step-Inv (Reachable-Inv r) s
