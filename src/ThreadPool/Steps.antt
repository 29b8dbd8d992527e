-- ===== src/ThreadPool/Steps.antt =====
-- What the threads around a `ThreadPool` can do next.
use lsp_framework_noec.Base.{ℕ, ◌-◌, ◌<◌, ◌≡◌, ◌≢◌, ◌⊎◌, true, false, some, get_elem?}
use lsp_framework_noec.ThreadPool.Pool.{
  ready, asleep, running, open_phase, closing, joining, Pool, new_pool, set_worker, add_task,
  worker_round, complete, begin_finish, notify_all, end_finish, notify_reopened,
}
use lsp_framework_noec.ThreadPool.Weights.{weigh, is_asleep, is_active}

-- The notification of one more `addTask` is over.
abbrev pub notified : Pool → Pool
notified p = record p { to_notify = p.to_notify - 1 }

-- `waitUntilFinished` is called by one thread at a time.
pub data Step (p q : Pool) : Type 0 where
  add : (t : ℕ) → add_task t p ≡ some q → Step p q
  -- `notify_one` wakes a worker that waits.
  notify_worker :
      (i : ℕ)
      → 0 < p.to_notify
      → get_elem? p.workers i ≡ some asleep
      → q ≡ notified (set_worker i ready p)
      → Step p q
  -- It wakes nobody if no worker waits, or another caller of `addTask` that waits for the pool to be
  -- opened: such a caller may wait until the last `notify_all` of `waitUntilFinished`.
  notify_nobody : 0 < p.to_notify → weigh is_asleep p.workers ≡ 0 → q ≡ notified p → Step p q
  notify_caller :
      0 < p.to_notify → (p.phase ≢ open_phase) ⊎ (p.reopening ≡ true) → q ≡ notified p → Step p q
  -- A wait may end with no notification.
  spurious_wake :
      (i : ℕ) → get_elem? p.workers i ≡ some asleep → q ≡ set_worker i ready p → Step p q
  round : (i : ℕ) → get_elem? p.workers i ≡ some ready → q ≡ worker_round i p → Step p q
  execute : (i t : ℕ) → get_elem? p.workers i ≡ some (running t) → q ≡ complete i t p → Step p q
  begin : p.phase ≡ open_phase → p.reopening ≡ false → q ≡ begin_finish p → Step p q
  wake_up : p.phase ≡ closing → q ≡ notify_all p → Step p q
  -- Every `join` has returned.
  finish :
      p.phase ≡ joining
      → weigh is_asleep p.workers ≡ 0
      → weigh is_active p.workers ≡ 0
      → q ≡ end_finish p
      → Step p q
  reopen : p.reopening ≡ true → q ≡ notify_reopened p → Step p q

-- The states that a pool can come to.
pub data Reachable (initial_threads max_threads : ℕ) : Pool → Type 0 where
  start : Reachable initial_threads max_threads (new_pool initial_threads max_threads)
  next :
      {p q : Pool}
      → Reachable initial_threads max_threads p
      → Step p q
      → Reachable initial_threads max_threads q
