-- ===== src/Pools/Demand.antt =====
-- How many workers a queue requires.
use debusine.Pools.Allocate.{workers_for}
use debusine.Pools.Budget.{task_duration_seconds, target_latency_seconds}
use debusine.Prelude.{ℕ, ◌-◌, ◌*◌, ◌≡◌, ◌≤◌, ◌↔◌, arith, ◌<◌}

-- The workers that a queue requires suffice: within the target latency they drain all of the pending
-- tasks but the last; they are no more than the tasks, and none exactly if there are no tasks.
pub workers_for-drains :
    (pending_tasks : ℕ)
    → (task_duration_seconds * (pending_tasks - 1)
        ≤ target_latency_seconds * workers_for pending_tasks)
      × (workers_for pending_tasks ≤ pending_tasks)
      × ((workers_for pending_tasks ≡ 0) ↔ (pending_tasks ≡ 0))
unfolding workers_for
workers_for-drains pending_tasks = ground arith

-- One worker fewer, if it is not the only one, would take longer than the target latency.
pub workers_for-least :
    (pending_tasks : ℕ)
    → 1 < workers_for pending_tasks
    → target_latency_seconds * (workers_for pending_tasks - 1)
      < task_duration_seconds * (pending_tasks - 1)
unfolding workers_for
workers_for-least pending_tasks h = ground arith
