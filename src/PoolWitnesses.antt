-- ===== src/PoolWitnesses.antt =====
-- A run of a thread pool, for the theorems on lsp/threadpool.cpp.
use lsp_framework_noec.Base.{◌+◌, ◌<◌, ◌≡◌, ◌⊎◌, true, refl, [], ◌∷◌, ◌++◌, length, arith}
use lsp_framework_noec.ThreadPool.Pool.{
  open_phase, closing, joining, Pool, new_pool, wants_thread, add_task, worker_round, complete,
  begin_finish, notify_all,
}
use lsp_framework_noec.ThreadPool.Steps.{Step, Reachable}
use lsp_framework_noec.ThreadPool.Weights.{weigh, runs, is_active, count}
use lsp_framework_noec.ThreadPool.Tasks.{Reachable-accounts, Reachable-finished, Reachable-heard}
use lsp_framework_noec.ThreadPool.Finish.{work, joining-Step, joining-work}

-- A pool of one thread with a task, before and after `notify_one`.
abbrev with_task : Pool
unfolding new_pool
with_task = record (new_pool 1 2) { task_queue = 7 ∷ []; to_notify = 1; added = 7 ∷ [] }

abbrev heard_task : Pool
unfolding new_pool
heard_task = record (new_pool 1 2) { task_queue = 7 ∷ []; added = 7 ∷ [] }

abbrev taken_task : Pool
taken_task = worker_round 0 heard_task

abbrev all_joining : Pool
all_joining = notify_all (begin_finish taken_task)

abbrev task_done : Pool
task_done = complete 0 7 all_joining

abbrev all_left : Pool
all_left = worker_round 0 task_done

reach_task : Reachable 1 2 with_task
unfolding new_pool add_task wants_thread
reach_task = Reachable.next Reachable.start (Step.add 7 refl)

reach_heard : Reachable 1 2 heard_task
unfolding new_pool
reach_heard = Reachable.next reach_task (Step.notify_nobody (omega arith) refl refl)

reach_taken : Reachable 1 2 taken_task
unfolding new_pool
reach_taken = Reachable.next reach_heard (Step.round 0 refl refl)

reach_joining : Reachable 1 2 all_joining
unfolding new_pool worker_round begin_finish
reach_joining =
    Reachable.next (Reachable.next reach_taken (Step.begin refl refl refl)) (Step.wake_up refl refl)

all_joining_phase : all_joining.phase ≡ joining
unfolding notify_all
all_joining_phase = refl

busy_step : Step all_joining task_done
unfolding new_pool worker_round begin_finish notify_all
busy_step = Step.execute 0 7 refl refl

reach_left : Reachable 1 2 all_left
unfolding new_pool worker_round begin_finish notify_all complete
reach_left = Reachable.next (Reachable.next reach_joining busy_step) (Step.round 0 refl refl)

all_left_phase : all_left.phase ≡ joining
unfolding new_pool worker_round begin_finish notify_all complete
all_left_phase = refl

all_left_idle : weigh is_active all_left.workers ≡ 0
unfolding new_pool worker_round begin_finish notify_all complete
all_left_idle = refl

one_task : 0 < length with_task.task_queue
unfolding with_task
one_task = omega arith

Reachable-accounts_example :
    (count 7 taken_task.added
      ≡ count 7 taken_task.completed
        + weigh (runs 7) taken_task.workers
        + count 7 taken_task.task_queue)
    × (taken_task.added ≡ taken_task.started ++ taken_task.task_queue)
Reachable-accounts_example = Reachable-accounts 7 reach_taken

Reachable-finished_example :
    (all_left.task_queue ≡ []) × (count 7 all_left.completed ≡ count 7 all_left.added)
Reachable-finished_example = Reachable-finished 7 reach_left all_left_phase all_left_idle

Reachable-heard_example :
    (0 < with_task.to_notify)
    ⊎ (0 < weigh is_active with_task.workers)
    ⊎ (with_task.phase ≡ closing)
    ⊎ (with_task.reopening ≡ true)
Reachable-heard_example = Reachable-heard reach_task one_task

joining-Step_example :
    (q : Pool) × Step all_left q × ((q.phase ≡ open_phase) ⊎ (work q < work all_left))
joining-Step_example = joining-Step reach_left all_left_phase

joining-work_example :
    (task_done.phase ≡ open_phase)
    ⊎ ((task_done.phase ≡ joining) × (work task_done < work all_joining))
joining-work_example = joining-work reach_joining all_joining_phase busy_step
