-- ===== src/Pools/Launch.antt =====
-- The tables that provisioning reads and writes, and launch_workers of
-- debusine/db/models/worker_pools.py. A limit below zero is as good as zero.
use debusine.Prelude.{
  ℕ, zero, suc, ◌+◌, ◌-◌, Bool, true, false, ◌&&◌, ◌||◌, Option, none, some, List, [], ◌∷◌, ◌++◌,
  ◌==◌, ltb, filter, map, count, length, is_key, is_none, if◌then◌else◌,
}
use debusine.Prelude.Int.{ℤ}
use debusine.Prelude.Decimal.{Text}
use debusine.Prelude.Sort.{sort_by}
use debusine.WorkRequests.{Worker, WorkerType, WorkRequest}
use debusine.Pools.Names.{member_name, create_names}
use debusine.Prelude.Maybe.{◌>>=◌}

pub record WorkerPool : Type 0 where
  pub id : ℕ
  pub name : Text
  pub instance_wide : Bool
  pub max_active_instances : Option ℕ
  pub target_max_seconds_per_month : Option ℕ

-- What a scope may use of a pool.
pub record ScopeWorkerPool : Type 0 where
  pub worker_pool : ℕ
  pub scope : ℕ
  pub priority : ℤ
  pub target_max_seconds_per_month : Option ℕ

-- The running time of an instance that was shut down.
pub record WorkerPoolStatistics : Type 0 where
  pub worker_pool : ℕ
  pub timestamp : ℕ
  pub runtime : ℕ

-- The time that a task took, in a scope.
pub record WorkerPoolTaskExecutionStatistics : Type 0 where
  pub worker_pool : ℕ
  pub scope : ℕ
  pub timestamp : ℕ
  pub runtime : ℕ

-- `workspace_scopes` pairs each workspace with its scope.
pub record Cloud : Type 0 where
  pub pools : List WorkerPool
  pub scope_pools : List ScopeWorkerPool
  pub workers : List Worker
  pub statistics : List WorkerPoolStatistics
  pub task_statistics : List WorkerPoolTaskExecutionStatistics
  pub work_requests : List WorkRequest
  pub workspace_scopes : List (ℕ × ℕ)
  pub start_of_month : ℕ
  pub now : ℕ
  pub next_id : ℕ

abbrev pub is_member : ℕ → Worker → Bool
is_member pool w = is_key w.worker_pool pool

-- `Worker.objects.filter(worker_pool=pool).count()`.
abbrev pub members : ℕ → List Worker → ℕ
members pool workers = count (is_member pool) workers

abbrev pub is_stopped : ℕ → Worker → Bool
is_stopped pool w = is_member pool w && is_none w.instance_created_at

-- `create` of a worker of a pool.
abbrev pub new_member : ℕ → ℕ → Text → Worker
new_member pool id name = record {
  id = id;
  name = name;
  worker_type = WorkerType.external;
  concurrency = 1;
  connected_at = none;
  token_enabled = false;
  worker_pool = some pool;
  instance_created_at = none;
}

abbrev pub append_members : ℕ → List Text → Cloud → Cloud
append_members pool [] cloud = cloud
append_members pool (n ∷ names) cloud = append_members pool names (record cloud {
  workers = cloud.workers ++ new_member pool cloud.next_id n ∷ [];
  next_id = suc cloud.next_id;
})

-- As many rounds as there are workers and new ones suffice.
abbrev pub new_names : WorkerPool → ℕ → Cloud → Option (List Text)
new_names pool amount cloud =
    create_names (member_name pool.name) (length cloud.workers + amount) amount 1
      (map (λ w. w.name) cloud.workers)

unfoldable pub create_pool_members : WorkerPool → ℕ → Cloud → Option Cloud
unfolding create_names member_name
create_pool_members pool amount cloud = do
  names ← new_names pool amount cloud
  some (append_members pool.id names cloud)

-- The order of names, as that of their characters.
abbrev pub name_before : Text → Text → Bool
name_before s [] = false
name_before [] (d ∷ t) = true
name_before (c ∷ s) (d ∷ t) = ltb c d || (c == d && name_before s t)

abbrev pub first_stopped : ℕ → List Worker → Option Worker
first_stopped pool workers =
    elim (sort_by (λ a b. name_before a.name b.name) (filter (is_stopped pool) workers)) [
      | [] ↦ none
      | w ∷ _ ↦ some w
    ]

-- `launch_worker` is the method of the provider's interface.
module _ (launch_worker : ℕ → Worker → Worker) where
  -- The worker's row gets a new activation token, its token is disabled, and the provider launches it.
  abbrev pub launched : Cloud → ℕ → Worker → Worker
  launched cloud id w =
      if w.id == id then launch_worker cloud.now (record w { token_enabled = false }) else w

  unfoldable pub launch_each : ℕ → ℕ → Cloud → Cloud
  launch_each zero pool cloud = cloud
  launch_each (suc amount) pool cloud = elim (first_stopped pool cloud.workers) [
    | none ↦ cloud
    | some w ↦
        launch_each amount pool (record cloud { workers = map (launched cloud w.id) cloud.workers })
  ]

  abbrev pub expand : WorkerPool → ℕ → Cloud → Option Cloud
  expand pool amount cloud =
      let available = count (is_stopped pool.id) cloud.workers in
      if ltb available amount
      then create_pool_members pool (amount - available) cloud
      else some cloud

  -- `WorkerPool.launch_workers`; `none` when the rounds for the names do not suffice.
  unfoldable pub launch_workers : WorkerPool → ℕ → Cloud → Option Cloud
  unfolding launch_each create_pool_members
  launch_workers pool amount cloud = do
    expanded ← expand pool amount cloud
    some (launch_each amount pool.id expanded)
