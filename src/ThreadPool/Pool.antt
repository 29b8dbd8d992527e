-- ===== src/ThreadPool/Pool.antt =====
-- The state of a `ThreadPool` and its sections under the mutex. A task is a number that names it.
use lsp_framework_noec.Base.{
  ℕ, zero, suc, Bool, true, false, ◌&&◌, ◌||◌, List, [], ◌∷◌, ◌++◌, Option, none, some, length, ltb,
  ◌==◌, if◌then◌else◌, set,
}

-- Where a worker thread is: about to take the mutex, inside `m_event.wait`, executing a task, or
-- behind its loop.
pub data Worker : Type 0 where
  ready asleep exited : Worker
  running : ℕ → Worker

-- `m_waitForNewTasks` is true in `open_phase`. `waitUntilFinished` has cleared it in `closing`, and has
-- notified all threads too in `joining`.
pub data Phase : Type 0 where
  open_phase closing joining : Phase

pub record Pool : Type 0 where
  pub phase : Phase
  -- `waitUntilFinished` has set `m_waitForNewTasks` again, and its last `notify_all` is to come.
  pub reopening : Bool
  pub max_threads : ℕ
  pub workers : List Worker
  pub task_queue : List ℕ
  -- Calls of `addTask` that have left the mutex and have not called `notify_one` yet.
  pub to_notify : ℕ
  -- What happened so far: the tasks in the order in which they were added, in which workers took
  -- them from the queue, and in which they were done.
  pub added : List ℕ
  pub started : List ℕ
  pub completed : List ℕ

abbrev pub wait_for_new_tasks : Phase → Bool
wait_for_new_tasks open_phase = true
wait_for_new_tasks closing = false
wait_for_new_tasks joining = false

abbrev pub at_least_one : ℕ → ℕ
at_least_one zero = 1
at_least_one (suc n) = suc n

abbrev pub ready_workers : ℕ → List Worker
ready_workers zero = []
ready_workers (suc n) = ready ∷ ready_workers n

-- `ThreadPool(initialThreads, maxThreads)`.
unfoldable pub new_pool : ℕ → ℕ → Pool
new_pool initial_threads max_threads = record {
  phase = open_phase;
  reopening = false;
  max_threads = at_least_one max_threads;
  workers = ready_workers initial_threads;
  task_queue = [];
  to_notify = 0;
  added = [];
  started = [];
  completed = [];
}

abbrev pub add_thread : Pool → Pool
add_thread p = record p { workers = p.workers ++ ready ∷ [] }

abbrev pub push_task : ℕ → Pool → Pool
push_task t p = record p {
  task_queue = p.task_queue ++ t ∷ [];
  to_notify = suc p.to_notify;
  added = p.added ++ t ∷ [];
}

-- The test of `addTask` for one more thread, with the task in the queue.
unfoldable pub wants_thread : Pool → Bool
wants_thread p =
    ltb 1 (length p.task_queue) && ltb (length p.workers) p.max_threads || length p.workers == 0

-- `addTask` up to its `unlock`; `none` while it waits for `m_waitForNewTasks`.
unfoldable pub add_task : ℕ → Pool → Option Pool
unfolding wants_thread
add_task t p =
    if wait_for_new_tasks p.phase
    then some (if wants_thread (push_task t p) then add_thread (push_task t p) else push_task t p)
    else none

abbrev pub set_worker : ℕ → Worker → Pool → Pool
set_worker i w p = record p { workers = set p.workers i w }

abbrev pub is_empty : List ℕ → Bool
is_empty [] = true
is_empty (t ∷ ts) = false

abbrev pub take_task : ℕ → List ℕ → Pool → Pool
take_task i [] p = set_worker i exited p
take_task i (t ∷ ts) p = record p {
  workers = set p.workers i (running t);
  task_queue = ts;
  started = p.started ++ t ∷ [];
}

-- The section of a worker's loop under the mutex. A worker whose wait ends tests the predicate of
-- the wait, which is the test here, so it is `ready` again.
unfoldable pub worker_round : ℕ → Pool → Pool
worker_round i p =
    if wait_for_new_tasks p.phase && is_empty p.task_queue
    then set_worker i asleep p
    else take_task i p.task_queue p

-- `task->execute()` returns. A task that throws ends the process, behind which there are no states.
unfoldable pub complete : ℕ → ℕ → Pool → Pool
complete i t p = record p { workers = set p.workers i ready; completed = p.completed ++ t ∷ [] }

abbrev pub wake : Worker → Worker
wake asleep = ready
wake w = w

abbrev pub wake_all : List Worker → List Worker
wake_all [] = []
wake_all (w ∷ ws) = wake w ∷ wake_all ws

-- `waitUntilFinished`: its first section, its first `notify_all`, its last section, and its last
-- `notify_all`, for the callers of `addTask`, which reaches the new workers too.
unfoldable pub begin_finish : Pool → Pool
begin_finish p = record p { phase = closing }

unfoldable pub notify_all : Pool → Pool
notify_all p = record p { phase = joining; workers = wake_all p.workers }

unfoldable pub end_finish : Pool → Pool
end_finish p = record p { phase = open_phase; reopening = true; workers = [] }

unfoldable pub notify_reopened : Pool → Pool
notify_reopened p = record p { reopening = false; workers = wake_all p.workers }
