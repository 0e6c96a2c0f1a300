-- ===== src/Pools/Limits.antt =====
-- What launching workers adds to the pools.
use debusine.Pools.Names.{create_names, member_name}
use debusine.Pools.NameLaws.{create_names-member_name, IsFresh}
use debusine.Pools.Launch.{
  Cloud, WorkerPool, is_member, members, is_stopped, new_member, append_members, new_names,
  create_pool_members, first_stopped, launched, launch_each, expand, launch_workers,
}
use debusine.Prelude.Decimal.{Text}
use debusine.Prelude.Maybe.{Returns, Returns-bind, Returns-map}
use debusine.Prelude.{
  ℕ, zero, suc, ◌+◌, ◌-◌, true, false, Option, none, some, List, [], ◌∷◌, ◌++◌, ◌==◌, count, map,
  length, ◌≡◌, ◌≤◌, refl, arith, inl, inr, Bool-cases, ◌∙◌, subst, if◌then◌else◌, ltb, ◌⊎◌,
}
use debusine.WorkRequests.{Worker}

-- Launching a worker keeps it in its pool.
abbrev pub IsLaunch : (ℕ → Worker → Worker) → Type 0
IsLaunch launch_worker = (now : ℕ) (w : Worker) → (launch_worker now w).worker_pool ≡ w.worker_pool

-- What launching does: the pools stay, no other pool grows, and the pool by no more than the amount.
pub record Grows (pool amount : ℕ) (cloud after : Cloud) : Type 0 where
  pub pools : after.pools ≡ cloud.pools
  pub others : (p : ℕ) → (p == pool) ≡ false → members p after.workers ≡ members p cloud.workers
  pub own : members pool after.workers ≤ members pool cloud.workers + amount
  pub total : length after.workers ≤ length cloud.workers + amount

members-append :
    (p : ℕ) (ws : List Worker) (w : Worker)
    → members p (ws ++ w ∷ []) ≡ members p ws + (if is_member p w then 1 else 0)
members-append p [] w = ground arith
members-append p (v ∷ vs) w = ground (arith, members-append p vs w)

length-snoc : (ws : List Worker) (w : Worker) → length (ws ++ w ∷ []) ≡ suc (length ws)
length-snoc [] w = refl
length-snoc (v ∷ vs) w = ground (arith, length-snoc vs w)

append_members-Grows :
    (pool : ℕ) (names : List Text) (cloud : Cloud)
    → Grows pool (length names) cloud (append_members pool names cloud)
append_members-Grows pool [] cloud = record {
  pools = refl;
  others = λ p e. refl;
  own = omega arith;
  total = omega arith;
}
append_members-Grows pool (n ∷ names) cloud =
    let w = new_member pool cloud.next_id n in
    let next = record cloud { workers = cloud.workers ++ w ∷ []; next_id = suc cloud.next_id } in
    let rest = append_members-Grows pool names next in
    record {
      pools = rest.pools;
      others = λ p e. rest.others p e ∙ ground (arith, members-append p cloud.workers w, e);
      own = ground (arith, rest.own, members-append pool cloud.workers w);
      total = omega (arith, rest.total, length-snoc cloud.workers w);
    }

length-map : (f : Worker → Worker) (ws : List Worker) → length (map f ws) ≡ length ws
length-map f [] = refl
length-map f (w ∷ ws) = ground (arith, length-map f ws)

names-length : (ws : List Worker) → length (map (λ (w : Worker). w.name) ws) ≡ length ws
names-length [] = refl
names-length (w ∷ ws) = ground (arith, names-length ws)

create_pool_members-Grows :
    (pool : WorkerPool) (amount : ℕ) (cloud : Cloud)
    → Returns (Grows pool.id amount cloud) (create_pool_members pool amount cloud)
unfolding create_pool_members
create_pool_members-Grows pool amount cloud =
    let taken = map (λ (w : Worker). w.name) cloud.workers in
    let found =
      subst
        (λ n.
          Returns (λ names. (length names ≡ amount) × IsFresh taken names)
            (create_names (member_name pool.name) (n + amount) amount 1 taken))
        (names-length cloud.workers) (create_names-member_name pool.name amount taken) in
    Returns-bind _ (Grows pool.id amount cloud) (new_names pool amount cloud)
      (λ names. some (append_members pool.id names cloud)) found
      (λ names k.
        subst (λ n. Grows pool.id n cloud (append_members pool.id names cloud)) k.0
          (append_members-Grows pool.id names cloud))

pub Grows-refl : (pool : ℕ) (cloud : Cloud) (amount : ℕ) → Grows pool amount cloud cloud
Grows-refl pool cloud amount = record {
  pools = refl;
  others = λ p e. refl;
  own = omega arith;
  total = omega arith;
}

Grows-more :
    (pool n amount : ℕ) (cloud after : Cloud)
    → Grows pool n cloud after
    → n ≤ amount
    → Grows pool amount cloud after
Grows-more pool n amount cloud after g le = record {
  pools = g.pools;
  others = g.others;
  own = omega (arith, g.own, le);
  total = omega (arith, g.total, le);
}

module _ (launch_worker : ℕ → Worker → Worker) (launch-IsLaunch : IsLaunch launch_worker) where
  launched-members :
      (cloud : Cloud) (id p : ℕ) (ws : List Worker)
      → members p (map (launched launch_worker cloud id) ws) ≡ members p ws
  launched-members cloud id p [] = refl
  launched-members cloud id p (w ∷ ws) = elim (Bool-cases (w.id == id)) [
    | inl here ↦
        let same : (launched launch_worker cloud id w).worker_pool ≡ w.worker_pool =
          rw here (launch-IsLaunch cloud.now (record w { token_enabled = false })) in
        rw (same, launched-members cloud id p ws) refl
    | inr other ↦ rw (other, launched-members cloud id p ws) refl
  ]

  launch_each-Grows :
      (amount pool : ℕ) (cloud start : Cloud) (n : ℕ)
      → Grows pool n start cloud
      → Grows pool n start (launch_each launch_worker amount pool cloud)
  unfolding launch_each
  launch_each-Grows zero pool cloud start n g = g
  launch_each-Grows (suc amount) pool cloud start n g =
      chosen (first_stopped pool cloud.workers) (λ next. launch_each-Grows amount pool next start n)
    where
      after : Worker → Cloud
      after w = record cloud { workers = map (launched launch_worker cloud w.id) cloud.workers }

      chosen :
          (first : Option Worker)
          → ((next : Cloud)
              → Grows pool n start next
              → Grows pool n start (launch_each launch_worker amount pool next))
          → Grows pool n start (elim first [
            | none ↦ cloud
            | some w ↦ launch_each launch_worker amount pool (after w)
          ])
      chosen none ih = g
      chosen (some w) ih = ih (after w) (record {
        pools = g.pools;
        others = λ p e. launched-members cloud w.id p cloud.workers ∙ g.others p e;
        own = omega (arith, launched-members cloud w.id pool cloud.workers, g.own);
        total =
            omega (arith, length-map (launched launch_worker cloud w.id) cloud.workers, g.total);
      })

  pub launch_workers-Grows :
      (pool : WorkerPool) (amount : ℕ) (cloud : Cloud)
      → Returns (Grows pool.id amount cloud) (launch_workers launch_worker pool amount cloud)
  unfolding launch_workers
  launch_workers-Grows pool amount cloud =
      Returns-bind (Grows pool.id amount cloud) (Grows pool.id amount cloud)
        (expand launch_worker pool amount cloud)
        (λ expanded. some (launch_each launch_worker amount pool.id expanded))
        (expanded (Bool-cases (ltb (count (is_stopped pool.id) cloud.workers) amount)))
        (λ expanded g. launch_each-Grows amount pool.id expanded cloud amount g)
    where
      available : ℕ
      available = count (is_stopped pool.id) cloud.workers

      expanded :
          (ltb available amount ≡ true) ⊎ (ltb available amount ≡ false)
          → Returns (Grows pool.id amount cloud) (expand launch_worker pool amount cloud)
      expanded (inl few) = rw few (
          Returns-map _ _ (create_pool_members pool (amount - available) cloud)
            (create_pool_members-Grows pool (amount - available) cloud)
            (λ after g. Grows-more pool.id (amount - available) amount cloud after g (omega arith)))
      expanded (inr enough) = rw enough (Grows-refl pool.id cloud amount)
