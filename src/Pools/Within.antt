-- ===== src/Pools/Within.antt =====
-- The limits that an allocation stays within.
use debusine.Pools.Launch.{Cloud, WorkerPool, ScopeWorkerPool, members}
use debusine.Pools.Budget.{
  limit_by_max_active_instances, limit_by_pool_target_max_seconds_per_month,
  limit_by_scope_pool_target_max_seconds_per_month, limit_by_seconds, pool_used_seconds,
  scope_used_seconds, get_scope_pool, task_duration_seconds, max, limit_by_instances, limit_by_link,
  link_target,
}
use debusine.Pools.Allocate.{allowed}
use debusine.Prelude.{ℕ, ◌+◌, Option, none, some, ◌≤◌, arith, ◌*◌}

-- `more` on top of what is used does not go over a limit, unless the limit is exceeded already.
abbrev pub StaysWithin : Option ℕ → ℕ → ℕ → Type 0
StaysWithin none used more = Unit {0}
StaysWithin (some most) used more = used + more ≤ max used most

-- A smaller amount stays within the limit too.
StaysWithin-le :
    (limit : Option ℕ) (used more less : ℕ)
    → less ≤ more
    → StaysWithin limit used more
    → StaysWithin limit used less
StaysWithin-le none used more less le h = tt
StaysWithin-le (some most) used more less le h = omega (arith, le, h)

limit_by_seconds-le :
    (target : Option ℕ) (used amount : ℕ) → limit_by_seconds target used amount ≤ amount
limit_by_seconds-le none used amount = omega arith
limit_by_seconds-le (some most) used amount = ground arith

limit_by_seconds-StaysWithin :
    (target : Option ℕ) (used amount : ℕ)
    → StaysWithin target used (task_duration_seconds * limit_by_seconds target used amount)
limit_by_seconds-StaysWithin none used amount = tt
limit_by_seconds-StaysWithin (some most) used amount = ground arith

limit_by_instances-le :
    (limit : Option ℕ) (count amount : ℕ) → limit_by_instances limit count amount ≤ amount
limit_by_instances-le none count amount = omega arith
limit_by_instances-le (some most) count amount = ground arith

limit_by_instances-StaysWithin :
    (limit : Option ℕ) (count amount : ℕ)
    → StaysWithin limit count (limit_by_instances limit count amount)
limit_by_instances-StaysWithin none count amount = tt
limit_by_instances-StaysWithin (some most) count amount = ground arith

limit_by_link-le :
    (link : Option ScopeWorkerPool) (used amount : ℕ) → limit_by_link link used amount ≤ amount
limit_by_link-le none used amount = omega arith
limit_by_link-le (some s) used amount =
    limit_by_seconds-le s.target_max_seconds_per_month used amount

limit_by_link-StaysWithin :
    (link : Option ScopeWorkerPool) (used amount : ℕ)
    → StaysWithin (link_target link) used (task_duration_seconds * limit_by_link link used amount)
limit_by_link-StaysWithin none used amount = tt
limit_by_link-StaysWithin (some s) used amount =
    limit_by_seconds-StaysWithin s.target_max_seconds_per_month used amount

-- The amount that a scope may launch in a pool is no more than asked for, and keeps the pool within its
-- limit of instances, and, counting the estimated duration of one task for each new worker, the pool
-- within its seconds of the month and the scope within its share of them, unless a limit is exceeded already.
pub allowed-StaysWithin :
    (cloud : Cloud) (scope : ℕ) (pool : WorkerPool) (amount : ℕ)
    → (allowed cloud scope pool amount ≤ amount)
      × StaysWithin pool.max_active_instances
          (members pool.id cloud.workers)
          (allowed cloud scope pool amount)
      × StaysWithin pool.target_max_seconds_per_month
          (pool_used_seconds cloud pool.id)
          (task_duration_seconds * allowed cloud scope pool amount)
      × StaysWithin
          (link_target (get_scope_pool pool.id scope cloud.scope_pools))
          (scope_used_seconds cloud scope pool.id)
          (task_duration_seconds * allowed cloud scope pool amount)
unfolding allowed limit_by_max_active_instances limit_by_pool_target_max_seconds_per_month
    limit_by_scope_pool_target_max_seconds_per_month
allowed-StaysWithin cloud scope pool amount =
    let count = members pool.id cloud.workers in
    let first = limit_by_instances pool.max_active_instances count amount in
    let used = pool_used_seconds cloud pool.id in
    let second = limit_by_seconds pool.target_max_seconds_per_month used first in
    let link = get_scope_pool pool.id scope cloud.scope_pools in
    let last = limit_by_link link (scope_used_seconds cloud scope pool.id) second in
    let first_le = limit_by_instances-le pool.max_active_instances count amount in
    let second_le = limit_by_seconds-le pool.target_max_seconds_per_month used first in
    let last_le = limit_by_link-le link (scope_used_seconds cloud scope pool.id) second in
    (
      omega (arith, first_le, second_le, last_le),
      StaysWithin-le pool.max_active_instances count first last (omega (arith, second_le, last_le))
          (limit_by_instances-StaysWithin pool.max_active_instances count amount),
      StaysWithin-le pool.target_max_seconds_per_month used (task_duration_seconds * second)
          (task_duration_seconds * last) (omega (arith, last_le))
          (limit_by_seconds-StaysWithin pool.target_max_seconds_per_month used first),
      limit_by_link-StaysWithin link (scope_used_seconds cloud scope pool.id) second,
    )
