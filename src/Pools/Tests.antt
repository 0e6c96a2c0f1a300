-- ===== src/Pools/Tests.antt =====
-- Provisioning on a small cloud, and its theorems at it.
use debusine.Samples.{row, builder}
use debusine.Prelude.Decimal.{Text, codes, str}
use debusine.Pools.{
  member_name, unique_name, create_names, WorkerPool, members, allowed, process_scope,
  create_new_workers, workers_required, workers_available, Cloud, task_duration_seconds,
  pool_used_seconds, link_target, get_scope_pool, scope_used_seconds,
}
use debusine.Pools.Limits.{IsLaunch}
use debusine.Pools.Within.{allowed-StaysWithin, StaysWithin}
use debusine.Pools.Provision.{
  IsPool, UniquePools, IsWithin, IsAllocated, process_scope-IsAllocated,
  create_new_workers-IsWithin,
}
use debusine.WorkRequests.{WorkRequest, Worker, TaskTypes, Statuses}
use Prim.Native.Nat.{ℕ}
use debusine.Prelude.{
  ◌≡◌, ◌∷◌, false, true, some, ℕ, ◌≤◌, [], none, inl, arith, ◌*◌, ◌-◌, refl, subst, inr, Option,
  List, map,
}
use debusine.Prelude.Maybe.{Returns}
use debusine.Prelude.Int.{pos}

third_member : member_name (codes "gpu") 3 ≡ codes "gpu-003"
unfolding member_name str
third_member = refl

second_name : unique_name (codes "host") 2 ≡ codes "host-2"
unfolding unique_name str
second_name = refl

skipped_names :
    create_names (member_name (codes "gpu")) 5 2 1 (codes "gpu-001" ∷ [])
    ≡ some (codes "gpu-002" ∷ codes "gpu-003" ∷ [])
unfolding create_names member_name str
skipped_names = refl

-- A pool of the scope 1 with room for one more, and one for all scopes.
abbrev gpu : WorkerPool
gpu = record {
  id = 1;
  name = codes "gpu";
  instance_wide = false;
  max_active_instances = some 2;
  target_max_seconds_per_month = some 10000;
}

abbrev spare : WorkerPool
spare = record gpu {
  id = 2;
  name = codes "spare";
  instance_wide = true;
  max_active_instances = none;
}

abbrev old_member : Worker
old_member = record builder {
  name = codes "gpu-001";
  worker_pool = some 1;
  instance_created_at = some 10;
}

abbrev task : ℕ → WorkRequest
task id = row id TaskTypes.worker Statuses.pending none

abbrev cloud : Cloud
cloud = record {
  pools = gpu ∷ spare ∷ [];
  scope_pools =
      record { worker_pool = 1; scope = 1; priority = pos 0; target_max_seconds_per_month = none }
      ∷ [];
  workers = old_member ∷ [];
  statistics = [];
  task_statistics = [];
  work_requests =
      task 1
      ∷ task 2
      ∷ task 3
      ∷ task 4
      ∷ task 5
      ∷ task 6
      ∷ task 7
      ∷ task 8
      ∷ task 9
      ∷ task 10
      ∷ task 11
      ∷ task 12
      ∷ task 13
      ∷ task 14
      ∷ task 15
      ∷ task 16
      ∷ task 17
      ∷ task 18
      ∷ task 19
      ∷ task 20
      ∷ [];
  workspace_scopes = (1, 1) ∷ [];
  start_of_month = 0;
  now = 100;
  next_id = 8;
}

abbrev launch : ℕ → Worker → Worker
launch now w = record w { instance_created_at = some now }

launch-IsLaunch : IsLaunch launch
launch-IsLaunch now w = refl

abbrev names_after : Option Cloud → List Text
names_after none = []
names_after (some after) = map (λ w. w.name) after.workers

-- Twenty tasks require four workers: one is there, one fits in the first pool, two go to the other.
provisioned :
    names_after (create_new_workers launch (λ w. true) (1 ∷ []) cloud)
    ≡ codes "gpu-001" ∷ codes "gpu-002" ∷ codes "spare-001" ∷ codes "spare-002" ∷ []
unfolding create_new_workers str
provisioned = refl

in_pools : (P : WorkerPool → Type 0) → P gpu → P spare → (p : WorkerPool) → IsPool cloud p → P p
in_pools P a b p (inl e) = subst P e a
in_pools P a b p (inr (inl e)) = subst P e b
in_pools P a b p (inr (inr h)) = absurd h

cloud-UniquePools : UniquePools cloud
cloud-UniquePools p q hp hq e =
    in_pools (λ p. p.id ≡ q.id → p ≡ q)
      (in_pools (λ q. 1 ≡ q.id → gpu ≡ q) (λ e. refl) (λ e. absurd (omega arith)) q hq)
      (in_pools (λ q. 2 ≡ q.id → spare ≡ q) (λ e. absurd (omega arith)) (λ e. refl) q hq) p hp e

cloud-IsWithin : IsWithin cloud
cloud-IsWithin p most hp e =
    in_pools (λ p. p.max_active_instances ≡ some most → members p.id cloud.workers ≤ most)
      (λ e. ground (arith, e)) (λ e. absurd (cc)) p hp e

allowed-StaysWithin_example :
    (allowed cloud 1 gpu 3 ≤ 3)
    × StaysWithin gpu.max_active_instances (members gpu.id cloud.workers) (allowed cloud 1 gpu 3)
    × StaysWithin gpu.target_max_seconds_per_month
        (pool_used_seconds cloud gpu.id)
        (task_duration_seconds * allowed cloud 1 gpu 3)
    × StaysWithin
        (link_target (get_scope_pool gpu.id 1 cloud.scope_pools))
        (scope_used_seconds cloud 1 gpu.id)
        (task_duration_seconds * allowed cloud 1 gpu 3)
allowed-StaysWithin_example = allowed-StaysWithin cloud 1 gpu 3

process_scope-IsAllocated_example :
    Returns
      (IsAllocated cloud (workers_required (λ w. true) cloud 1 - workers_available 0 cloud 1))
      (process_scope launch (λ w. true) 0 1 cloud)
process_scope-IsAllocated_example =
    process_scope-IsAllocated launch launch-IsLaunch (λ w. true) 0 1 cloud cloud-UniquePools
      cloud-IsWithin

create_new_workers-IsWithin_example :
    Returns IsWithin (create_new_workers launch (λ w. true) (1 ∷ []) cloud)
create_new_workers-IsWithin_example =
    create_new_workers-IsWithin launch (λ w. true) (1 ∷ []) cloud launch-IsLaunch cloud-UniquePools
      cloud-IsWithin
