-- ===== src/Pools/Allocate.antt =====
-- ScopeWorkerAllocator of debusine/server/provisioning.py, and the loop over the scopes.
use debusine.Prelude.{
  ℕ, ◌+◌, ◌-◌, ◌*◌, ◌/◌, Bool, not, ◌&&◌, Option, some, List, [], ◌∷◌, ◌++◌, ◌==◌, ltb, leb, filter,
  map, count, any, is_none, if◌then◌else◌,
}
use debusine.Prelude.Int.{ltb_ℤ}
use debusine.Prelude.Sort.{sort_by}
use debusine.WorkRequests.{Worker, WorkRequest}
use debusine.Pools.Launch.{Cloud, WorkerPool, ScopeWorkerPool, is_member, members, launch_workers}
use debusine.Pools.Budget.{
  min, max, sum, task_duration_seconds, target_latency_seconds, limit_by_max_active_instances,
  in_scope, limit_by_pool_target_max_seconds_per_month,
  limit_by_scope_pool_target_max_seconds_per_month,
}
use debusine.Prelude.Maybe.{◌>>=◌}

-- The amount that the three limits leave.
unfoldable pub allowed : Cloud → ℕ → WorkerPool → ℕ → ℕ
unfolding limit_by_max_active_instances limit_by_pool_target_max_seconds_per_month
    limit_by_scope_pool_target_max_seconds_per_month
allowed cloud scope pool amount =
    limit_by_scope_pool_target_max_seconds_per_month cloud scope pool (
      limit_by_pool_target_max_seconds_per_month cloud pool
        (limit_by_max_active_instances cloud pool amount))

-- The workers that drain the queue within the latency: one second of each drains a second of tasks.
unfoldable pub workers_for : ℕ → ℕ
workers_for pending_tasks =
    if pending_tasks == 0
    then 0
    else max 1 (
        min
          ((task_duration_seconds * (pending_tasks - 1) + (target_latency_seconds - 1))
            / target_latency_seconds)
          pending_tasks)

abbrev pub find_pool : ℕ → List WorkerPool → List WorkerPool
find_pool k [] = []
find_pool k (p ∷ ps) = if p.id == k then p ∷ [] else find_pool k ps

abbrev pub linked_pools : List ScopeWorkerPool → List WorkerPool → List WorkerPool
linked_pools [] pools = []
linked_pools (s ∷ rest) pools = find_pool s.worker_pool pools ++ linked_pools rest pools

-- Scope pools by decreasing priority, and the instance-wide ones at the end.
unfoldable pub allocation_pools : Cloud → ℕ → List WorkerPool
unfolding sort_by
allocation_pools cloud scope =
    linked_pools
      (sort_by (λ a b. ltb_ℤ b.priority a.priority)
        (filter (λ s. s.scope == scope) cloud.scope_pools))
      cloud.pools
    ++ filter (λ p. p.instance_wide) cloud.pools

-- `is_amd64` reads the task data of a work request.
module _ (is_amd64 : WorkRequest → Bool) where
  unfoldable pub pending_task_count : Cloud → ℕ → ℕ
  pending_task_count cloud scope =
      count (λ w. in_scope cloud scope w.workspace && is_amd64 w) cloud.work_requests

  unfoldable pub workers_required : Cloud → ℕ → ℕ
  unfolding workers_for pending_task_count
  workers_required cloud scope = workers_for (pending_task_count cloud scope)

-- `static_workers` counts the connected workers that are in no pool, when the allocator is made.
unfoldable pub workers_available : ℕ → Cloud → ℕ → ℕ
workers_available static_workers cloud scope =
    (static_workers
      + count (λ w. any (λ p. p.instance_wide && is_member p.id w) cloud.pools) cloud.workers)
    + sum (
        map (λ s. members s.worker_pool cloud.workers)
          (filter (λ s. s.scope == scope) cloud.scope_pools))

module _ (launch_worker : ℕ → Worker → Worker) where
  -- How many workers are launched, with what follows.
  unfoldable pub allocate_workers : ℕ → WorkerPool → ℕ → Cloud → Option (ℕ × Cloud)
  unfolding allowed launch_workers
  allocate_workers scope pool amount cloud =
      let granted = allowed cloud scope pool amount in
      let after = (do
        launched ← launch_workers launch_worker pool granted cloud
        some (granted, launched)) in
      if ltb 0 granted then after else some (granted, cloud)

  -- The loop over the pools, with what is left to allocate.
  unfoldable pub allocate_each : ℕ → List WorkerPool → ℕ → Cloud → Option (ℕ × Cloud)
  unfolding allocate_workers
  allocate_each scope [] required cloud = some (required, cloud)
  allocate_each scope (p ∷ pools) required cloud =
      let rest = (do
        (granted, after) ← allocate_workers scope p required cloud
        allocate_each scope pools (required - granted) after) in
      if leb required 0 then some (required, cloud) else rest

module _ (launch_worker : ℕ → Worker → Worker) (is_amd64 : WorkRequest → Bool)
    (static_workers : ℕ) where
  unfoldable pub process_scope : ℕ → Cloud → Option (ℕ × Cloud)
  unfolding allocate_each workers_required workers_available allocation_pools
  process_scope scope cloud =
      let required = workers_required is_amd64 cloud scope in
      let available = workers_available static_workers cloud scope in
      if leb required available
      then some (0, cloud)
      else allocate_each launch_worker scope (allocation_pools cloud scope) (required - available)
          cloud

  -- `create_new_workers`.
  unfoldable pub process_scopes : List ℕ → Cloud → Option Cloud
  unfolding process_scope
  process_scopes [] cloud = some cloud
  process_scopes (scope ∷ scopes) cloud = do
    (_, after) ← process_scope scope cloud
    process_scopes scopes after

abbrev pub static_workers_of : Cloud → ℕ
static_workers_of cloud =
    count (λ w. not (is_none w.connected_at) && is_none w.worker_pool) cloud.workers

unfoldable pub create_new_workers :
    (ℕ → Worker → Worker) → (WorkRequest → Bool) → List ℕ → Cloud → Option Cloud
unfolding process_scopes
create_new_workers launch_worker is_amd64 scopes cloud =
    process_scopes launch_worker is_amd64 (static_workers_of cloud) scopes cloud
