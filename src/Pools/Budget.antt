-- ===== src/Pools/Budget.antt =====
-- The limits of WorkerAllocator and ScopeWorkerAllocator in debusine/server/provisioning.py.
use debusine.Prelude.{
  ℕ, ◌+◌, ◌-◌, ◌/◌, Bool, not, ◌&&◌, Option, none, some, List, [], ◌∷◌, ◌==◌, ltb, leb, filter, map,
  is_key, is_none, if◌then◌else◌, any,
}
use debusine.WorkRequests.{WorkRequest, is_running}
use debusine.Pools.Launch.{Cloud, WorkerPool, ScopeWorkerPool, is_member, members}

abbrev pub task_duration_seconds : ℕ
task_duration_seconds = 600

abbrev pub target_latency_seconds : ℕ
target_latency_seconds = 3600

abbrev pub min : ℕ → ℕ → ℕ
min a b = if ltb b a then b else a

abbrev pub max : ℕ → ℕ → ℕ
max a b = if ltb a b then b else a

abbrev pub sum : List ℕ → ℕ
sum [] = 0
sum (n ∷ ns) = n + sum ns

-- `Greatest`, which skips a null.
abbrev greatest : Option ℕ → ℕ → ℕ
greatest none b = b
greatest (some a) b = max a b

abbrev pub limit_by_instances : Option ℕ → ℕ → ℕ → ℕ
limit_by_instances none current amount = amount
limit_by_instances (some most) current amount =
    if leb most current then 0 else min amount (most - current)

unfoldable pub limit_by_max_active_instances : Cloud → WorkerPool → ℕ → ℕ
limit_by_max_active_instances cloud pool amount =
    limit_by_instances pool.max_active_instances (members pool.id cloud.workers) amount

-- The part of a running time that lies in this month.
abbrev pub runtime_this_month : Cloud → ℕ → ℕ → ℕ
runtime_this_month cloud timestamp runtime = min runtime (timestamp - cloud.start_of_month)

abbrev pub running_since : Cloud → Option ℕ → ℕ
running_since cloud started = cloud.now - greatest started cloud.start_of_month

-- `WorkerAllocator.get_used_seconds`.
unfoldable pub pool_used_seconds : Cloud → ℕ → ℕ
pool_used_seconds cloud pool =
    sum (
      map (λ s. runtime_this_month cloud s.timestamp s.runtime)
        (filter (λ s. s.worker_pool == pool && leb cloud.start_of_month s.timestamp)
          cloud.statistics))
    + sum (
        map (λ w. running_since cloud w.instance_created_at)
          (filter (λ w. not (is_none w.connected_at) && is_member pool w) cloud.workers))

abbrev pub in_scope : Cloud → ℕ → ℕ → Bool
in_scope cloud scope workspace = any (λ w. w.0 == workspace && w.1 == scope) cloud.workspace_scopes

abbrev in_pool : Cloud → ℕ → WorkRequest → Bool
in_pool cloud pool w = any (λ v. is_key w.worker v.id && is_member pool v) cloud.workers

-- `ScopeWorkerAllocator.get_used_seconds`.
unfoldable pub scope_used_seconds : Cloud → ℕ → ℕ → ℕ
scope_used_seconds cloud scope pool =
    sum (
      map (λ s. runtime_this_month cloud s.timestamp s.runtime)
        (filter
          (λ s. (s.worker_pool == pool && s.scope == scope) && leb cloud.start_of_month s.timestamp)
          cloud.task_statistics))
    + sum (
        map (λ w. running_since cloud w.started_at)
          (filter
            (λ w.
              (is_running w.status && in_pool cloud pool w)
              && (in_scope cloud scope w.workspace && not (is_none w.started_at)))
            cloud.work_requests))

-- What is left of a number of seconds, as the number of tasks that it is enough for.
abbrev pub limit_by_seconds : Option ℕ → ℕ → ℕ → ℕ
limit_by_seconds none used amount = amount
limit_by_seconds (some target) used amount =
    if leb target used then 0 else min amount ((target - used) / task_duration_seconds)

unfoldable pub limit_by_pool_target_max_seconds_per_month : Cloud → WorkerPool → ℕ → ℕ
unfolding pool_used_seconds
limit_by_pool_target_max_seconds_per_month cloud pool amount =
    limit_by_seconds pool.target_max_seconds_per_month (pool_used_seconds cloud pool.id) amount

-- `ScopeWorkerPool.objects.get(worker_pool=pool, scope=scope)`, for a pair that is unique.
abbrev pub get_scope_pool : ℕ → ℕ → List ScopeWorkerPool → Option ScopeWorkerPool
get_scope_pool pool scope [] = none
get_scope_pool pool scope (s ∷ rest) =
    if s.worker_pool == pool && s.scope == scope then some s else get_scope_pool pool scope rest

-- The scope's target for a pool, if the pool is linked to the scope and has one.
abbrev pub link_target : Option ScopeWorkerPool → Option ℕ
link_target none = none
link_target (some link) = link.target_max_seconds_per_month

abbrev pub limit_by_link : Option ScopeWorkerPool → ℕ → ℕ → ℕ
limit_by_link none used amount = amount
limit_by_link (some link) used amount =
    limit_by_seconds link.target_max_seconds_per_month used amount

unfoldable pub limit_by_scope_pool_target_max_seconds_per_month : Cloud → ℕ → WorkerPool → ℕ → ℕ
unfolding scope_used_seconds
limit_by_scope_pool_target_max_seconds_per_month cloud scope pool amount =
    limit_by_link (get_scope_pool pool.id scope cloud.scope_pools)
      (scope_used_seconds cloud scope pool.id) amount
