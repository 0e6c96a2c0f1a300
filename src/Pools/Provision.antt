-- ===== src/Pools/Provision.antt =====
-- Provisioning keeps every pool within its limit of instances.
use debusine.Pools.Limits.{IsLaunch, Grows, Grows-refl, launch_workers-Grows}
use debusine.Pools.Within.{allowed-StaysWithin, StaysWithin}
use debusine.Pools.Launch.{Cloud, WorkerPool, ScopeWorkerPool, members, launch_workers}
use debusine.Pools.Allocate.{
  allowed, find_pool, linked_pools, allocation_pools, allocate_workers, allocate_each,
  process_scope, process_scopes, create_new_workers, workers_required, workers_available,
  static_workers_of,
}
use debusine.Prelude.Maybe.{Returns, Returns-bind, Returns-map}
use debusine.Prelude.Sort.{sort_by}
use debusine.Prelude.{
  ℕ, ◌+◌, ◌-◌, Bool, some, List, [], ◌∷◌, ◌++◌, ◌==◌, filter, length, All, Any, All-map, All-self,
  ◌≡◌, ◌≤◌, refl, arith, inl, inr, Bool-cases, ==_iff, sym, ◌∙◌, subst, ltb, leb, filter-All,
}
use debusine.WorkRequests.{Worker, WorkRequest}
use debusine.Prelude.Int.{ltb_ℤ}
use debusine.Pools.Budget.{max}

abbrev pub IsPool : Cloud → WorkerPool → Type 0
IsPool cloud p = Any (λ q. q ≡ p) cloud.pools

-- No two pools have the same key.
abbrev pub UniquePools : Cloud → Type 0
UniquePools cloud = (p q : WorkerPool) → IsPool cloud p → IsPool cloud q → p.id ≡ q.id → p ≡ q

-- Each pool with a limit has no more workers than that.
abbrev pub IsWithin : Cloud → Type 0
IsWithin cloud =
    (p : WorkerPool) (most : ℕ)
    → IsPool cloud p
    → p.max_active_instances ≡ some most
    → members p.id cloud.workers ≤ most

-- The state after an allocation from a requirement, of which the rest is left.
pub record IsAllocated (cloud : Cloud) (required : ℕ) (result : ℕ × Cloud) : Type 0 where
  pub pools : result.1.pools ≡ cloud.pools
  pub within : IsWithin result.1
  pub total : length result.1.workers + result.0 ≤ length cloud.workers + required

IsPool-subst : (a b : Cloud) (p : WorkerPool) → a.pools ≡ b.pools → IsPool a p → IsPool b p
IsPool-subst a b p e h = subst (Any (λ q. q ≡ p)) e h

Grows-IsWithin :
    (p : WorkerPool) (n : ℕ) (cloud after : Cloud)
    → UniquePools cloud
    → IsPool cloud p
    → IsWithin cloud
    → ((most : ℕ) → p.max_active_instances ≡ some most → members p.id cloud.workers + n ≤ most)
    → Grows p.id n cloud after
    → IsWithin after
Grows-IsWithin p n cloud after unique here within room g q most there e =
    let there' = IsPool-subst after cloud q g.pools there in
    elim (Bool-cases (q.id == p.id)) [
      | inl same ↦
          let q_p : p ≡ q = unique p q here there' (sym ((==_iff q.id p.id).0 same)) in
          let limit : p.max_active_instances ≡ some most =
            subst (λ r. r.max_active_instances ≡ some most) (sym q_p) e in
          let bound : members p.id after.workers ≤ most = omega (arith, g.own, room most limit) in
          subst (λ k. members k after.workers ≤ most) (sym ((==_iff q.id p.id).0 same)) bound
      | inr other ↦ omega (arith, g.others q.id other, within q most there' e)
    ]

module _ (launch_worker : ℕ → Worker → Worker) (launch-IsLaunch : IsLaunch launch_worker) where
  allocate_workers-IsAllocated :
      (scope : ℕ) (p : WorkerPool) (required : ℕ) (cloud : Cloud)
      → UniquePools cloud
      → IsWithin cloud
      → IsPool cloud p
      → Returns
          (λ r. (r.0 ≤ required) × IsAllocated cloud required (required - r.0, r.1))
          (allocate_workers launch_worker scope p required cloud)
  unfolding allocate_workers
  allocate_workers-IsAllocated scope p required cloud unique within here =
      elim (Bool-cases (ltb 0 granted)) [
        | inl some_more ↦ rw some_more (
            Returns-bind (Grows p.id granted cloud) Q (launch_workers launch_worker p granted cloud)
              (λ launched. some (granted, launched))
              (launch_workers-Grows launch_worker launch-IsLaunch p granted cloud)
              (λ after g. grown after g))
        | inr nothing ↦ rw nothing (grown cloud (Grows-refl p.id cloud granted))
      ]
    where
      granted : ℕ
      granted = allowed cloud scope p required

      room :
          (most : ℕ)
          → p.max_active_instances ≡ some most
          → members p.id cloud.workers ≤ most
          → members p.id cloud.workers + granted ≤ max (members p.id cloud.workers) most
          → members p.id cloud.workers + granted ≤ most
      room most e below h = ground arith

      Q : ℕ × Cloud → Type 0
      Q r = (r.0 ≤ required) × IsAllocated cloud required (required - r.0, r.1)

      grown : (after : Cloud) → Grows p.id granted cloud after → Q (granted, after)
      grown after g =
          let bounds = allowed-StaysWithin cloud scope p required in
          (
            bounds.0,
            record {
              pools = g.pools;
              within =
                  Grows-IsWithin p granted cloud after unique here within
                    (λ most e.
                      room most e (within p most here e) (
                        subst (λ l. StaysWithin l (members p.id cloud.workers) granted) e bounds.1))
                    g;
              total = omega (arith, g.total, bounds.0);
            },
          )

  allocate_each-IsAllocated :
      (scope : ℕ) (pools : List WorkerPool) (required : ℕ) (cloud : Cloud)
      → UniquePools cloud
      → IsWithin cloud
      → All (IsPool cloud) pools
      → Returns
          (IsAllocated cloud required)
          (allocate_each launch_worker scope pools required cloud)
  unfolding allocate_each
  allocate_each-IsAllocated scope [] required cloud unique within here = record {
    pools = refl;
    within = within;
    total = omega arith;
  }
  allocate_each-IsAllocated scope (p ∷ pools) required cloud unique within here =
      elim (Bool-cases (leb required 0)) [
        | inl enough ↦ rw enough (record { pools = refl; within = within; total = omega arith })
        | inr more ↦ rw more (
            Returns-bind _ (IsAllocated cloud required)
              (allocate_workers launch_worker scope p required cloud)
              (λ r. allocate_each launch_worker scope pools (required - r.0) r.1)
              (allocate_workers-IsAllocated scope p required cloud unique within here.0)
              (λ r k.
                Returns-map _ _ (allocate_each launch_worker scope pools (required - r.0) r.1)
                  (allocate_each-IsAllocated scope pools (required - r.0) r.1
                    (λ a b ha hb.
                      unique a b (IsPool-subst r.1 cloud a k.1.pools ha)
                        (IsPool-subst r.1 cloud b k.1.pools hb))
                    k.1.within
                    (All-map _ _ pools (λ q h. IsPool-subst cloud r.1 q (sym k.1.pools) h) here.1))
                  (λ last h. record {
                    pools = h.pools ∙ k.1.pools;
                    within = h.within;
                    total = omega (arith, h.total, k.1.total);
                  })))
      ]

All-append :
    (P : WorkerPool → Type 0) (xs ys : List WorkerPool) → All P xs → All P ys → All P (xs ++ ys)
All-append P [] ys h g = g
All-append P (x ∷ xs) ys h g = (h.0, All-append P xs ys h.1 g)

find_pool-IsPool :
    (k : ℕ) (P : WorkerPool → Type 0) (ps : List WorkerPool) → All P ps → All P (find_pool k ps)
find_pool-IsPool k P [] h = tt
find_pool-IsPool k P (p ∷ ps) h = elim (Bool-cases (p.id == k)) [
  | inl here ↦ rw here (h.0, tt)
  | inr other ↦ rw other (find_pool-IsPool k P ps h.1)
]

linked_pools-IsPool :
    (P : WorkerPool → Type 0) (links : List ScopeWorkerPool) (ps : List WorkerPool)
    → All P ps
    → All P (linked_pools links ps)
linked_pools-IsPool P [] ps h = tt
linked_pools-IsPool P (s ∷ rest) ps h =
    All-append P (find_pool s.worker_pool ps) (linked_pools rest ps)
      (find_pool-IsPool s.worker_pool P ps h) (linked_pools-IsPool P rest ps h)

allocation_pools-IsPool :
    (cloud : Cloud) (scope : ℕ) → All (IsPool cloud) (allocation_pools cloud scope)
unfolding allocation_pools
allocation_pools-IsPool cloud scope =
    let links =
      sort_by (λ a b. ltb_ℤ b.priority a.priority)
        (filter (λ s. s.scope == scope) cloud.scope_pools) in
    All-append (IsPool cloud) (linked_pools links cloud.pools)
      (filter (λ p. p.instance_wide) cloud.pools)
      (linked_pools-IsPool (IsPool cloud) links cloud.pools (All-self cloud.pools))
      (All-map _ _ (filter (λ p. p.instance_wide) cloud.pools) (λ p h. h.0)
        (filter-All (IsPool cloud) (λ p. p.instance_wide) cloud.pools (All-self cloud.pools)))

module _ (launch_worker : ℕ → Worker → Worker) (launch-IsLaunch : IsLaunch launch_worker)
    (is_amd64 : WorkRequest → Bool) (static_workers : ℕ) where
  -- Provisioning for a scope ends and creates no more workers than the scope requires beyond the available
  -- ones, and no pool goes over its limit of instances, provided that none is over it before, that the
  -- pools have distinct keys, and that launching a worker keeps it in its pool.
  pub process_scope-IsAllocated :
      (scope : ℕ) (cloud : Cloud)
      → UniquePools cloud
      → IsWithin cloud
      → Returns
          (IsAllocated cloud
            (workers_required is_amd64 cloud scope - workers_available static_workers cloud scope))
          (process_scope launch_worker is_amd64 static_workers scope cloud)
  unfolding process_scope
  process_scope-IsAllocated scope cloud unique within = elim (Bool-cases (leb required available)) [
    | inl enough ↦ rw enough (record { pools = refl; within = within; total = omega arith })
    | inr short ↦ rw short (
        allocate_each-IsAllocated launch_worker launch-IsLaunch scope (allocation_pools cloud scope)
          (required - available) cloud unique within (allocation_pools-IsPool cloud scope))
  ]
    where
      required : ℕ
      required = workers_required is_amd64 cloud scope

      available : ℕ
      available = workers_available static_workers cloud scope

  process_scopes-IsWithin :
      (scopes : List ℕ) (cloud : Cloud)
      → UniquePools cloud
      → IsWithin cloud
      → Returns IsWithin (process_scopes launch_worker is_amd64 static_workers scopes cloud)
  unfolding process_scopes
  process_scopes-IsWithin [] cloud unique within = within
  process_scopes-IsWithin (scope ∷ scopes) cloud unique within =
      Returns-bind _ IsWithin (process_scope launch_worker is_amd64 static_workers scope cloud)
        (λ r. process_scopes launch_worker is_amd64 static_workers scopes r.1)
        (process_scope-IsAllocated scope cloud unique within)
        (λ r k.
          process_scopes-IsWithin scopes r.1
            (λ a b ha hb.
              unique a b (IsPool-subst r.1 cloud a k.pools ha)
                (IsPool-subst r.1 cloud b k.pools hb))
            k.within)

-- Provisioning for all scopes ends, and no pool goes over its limit of instances, provided that none
-- is over it before, that the pools have distinct keys, and that launching a worker keeps it in its pool.
pub create_new_workers-IsWithin :
    (launch_worker : ℕ → Worker → Worker) (is_amd64 : WorkRequest → Bool) (scopes : List ℕ)
    (cloud : Cloud)
    → IsLaunch launch_worker
    → UniquePools cloud
    → IsWithin cloud
    → Returns IsWithin (create_new_workers launch_worker is_amd64 scopes cloud)
unfolding create_new_workers
create_new_workers-IsWithin launch_worker is_amd64 scopes cloud law unique within =
    process_scopes-IsWithin launch_worker law is_amd64 (static_workers_of cloud) scopes cloud unique
      within
