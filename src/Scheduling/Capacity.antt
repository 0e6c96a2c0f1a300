-- ===== src/Scheduling/Capacity.antt =====
-- An assignment takes one place of the worker's concurrency level.
use debusine.Prelude.{
  ℕ, false, ◌≡◌, ◌≤◌, arith, List, [], ◌∷◌, count, suc, refl, ◌||◌, ◌&&◌, is_key, All, Option, Bool,
  true, String, some, if◌then◌else◌, not, is_none, none, filter-All, All-any, filter, All-map,
}
use debusine.WorkRequests.{
  WorkRequest, Worker, Db, is_pending, is_running, write, hooked, logged, Keeps, ok, and_then,
  Post-map, found, Post-choice, find, Hook,
}
use debusine.Scheduling.{
  occupies, is_at_capacity, Environment, assign_work_request_to_worker, assign_worker, Attempt,
  is_waiting, Reaction, assign_runnable, assign_configured, assignment, assign_locked,
  save_assignment, Assigned, is_server, asked_before, waiting_for_work_request,
}
use debusine.Lifecycle.Live.{UniqueIds}
use debusine.Lifecycle.Capacity.{count-replace}
use debusine.Prelude.Sort.{IsOrdered, sort_by-IsOrdered, sort_by-All}

-- The work requests, running or pending, that are assigned to the worker `k`.
abbrev pub occupied : ℕ → List WorkRequest → ℕ
occupied k = count (occupies k)

same_count :
    (k : ℕ) (rows : List WorkRequest)
    → count
        (λ r.
          (is_running r.status && is_key r.worker k) || (is_pending r.status && is_key r.worker k))
        rows
      ≡ occupied k rows
same_count k [] = refl
same_count k (r ∷ rs) = ground (arith, same_count k rs)

-- A worker has a free place exactly if it is not at capacity.
pub is_at_capacity-lt :
    (db : Db) (v : Worker)
    → is_at_capacity db v ≡ false
    → suc (occupied v.id db.rows) ≤ v.concurrency
unfolding is_at_capacity
is_at_capacity-lt db v h = ground (arith, same_count v.id db.rows)

-- The actions on assignment do not touch the work requests.
pub record IsIdle (env : Environment) : Type 0 where
  pub idle : (w : WorkRequest) (db : Db) → (env.on_assignment w db).1.rows ≡ db.rows

module _ {env : Environment} (idle : IsIdle env) (k : ℕ) where
  abbrev Grows : List WorkRequest → List WorkRequest → Type 0
  Grows rows rows' = occupied k rows' ≤ suc (occupied k rows)

  configured-Grows :
      (o : Option String) (v : Worker) (self : WorkRequest) (db : Db)
      → UniqueIds db.rows
      → Grows db.rows (assign_configured env o v self db).1.rows
  unfolding write logged
  configured-Grows (some m) v self db u = omega arith
  configured-Grows none v self db u =
      let w = record self { worker = some v.id } in
      rw (idle.idle w (save_assignment env v self db)) (count-replace (occupies k) w db.rows u)

  assignment-Grows :
      (w : WorkRequest) (rows : List WorkRequest) (o : (Reaction × WorkRequest) × Db)
      → Grows rows o.1.rows
      → Keeps (Grows rows) (ok (assignment env w o))
  unfolding hooked
  assignment-Grows w rows ((Reaction.returned, self), db') g = go (is_server w.task_type)
    where
      go :
          (b : Bool)
          → Keeps (Grows rows) (
              ok (
                if b
                then (Assigned.assigned self, hooked (Hook.run_server_task self.id) db')
                else (Assigned.assigned self, db')))
      go true = g
      go false = g
  assignment-Grows w rows ((Reaction.skipped, self), db') g = g
  assignment-Grows w rows ((Reaction.failed m, self), db') g = g

  locked-Grows :
      (v : Worker) (w : WorkRequest) (db : Db) (o : Option WorkRequest)
      → UniqueIds db.rows
      → Keeps (Grows db.rows) (and_then (found o db) (assign_locked env w v))
  unfolding assign_worker
  locked-Grows v w db none u = tt
  locked-Grows v w db (some self) u =
      Post-choice (λ _ db'. Grows db.rows db'.rows) (not (is_none self.worker)) _ _
        (λ _. omega arith)
        (λ _.
          assignment-Grows w db.rows (assign_worker env v self db)
            (configured-Grows (env.configure_for_worker self v) v self db u))

  runnable-Grows :
      (o : Attempt Bool) (v : Worker) (w : WorkRequest) (db : Db)
      → UniqueIds db.rows
      → Keeps (Grows db.rows) (assign_runnable env o w v db)
  runnable-Grows (Attempt.failure m) v w db u = omega arith
  runnable-Grows (Attempt.success false) v w db u = omega arith
  runnable-Grows (Attempt.success true) v w db u =
      Post-choice (λ _ db'. Grows db.rows db'.rows) (not (env.locks_row w)) _ _ (λ _. omega arith)
        (λ _. locked-Grows v w db (find w.id db.rows) u)

-- Given unique keys and actions on assignment that leave the work requests alone, an attempt to
-- assign any work request to a worker that is not at capacity raises nothing but the `DoesNotExist`
-- of a row that is gone, and leaves the worker with no more running and pending work requests than
-- its concurrency level.
pub assign-within :
    {env : Environment} (idle : IsIdle env) (v : Worker) (w : WorkRequest) (db : Db)
    → UniqueIds db.rows
    → is_at_capacity db v ≡ false
    → Keeps (λ rows. occupied v.id rows ≤ v.concurrency) (assign_work_request_to_worker env w v db)
unfolding assign_work_request_to_worker
assign-within {env} idle v w db u free =
    Post-map (λ _ db'. Grows idle v.id db.rows db'.rows) _ _
      (runnable-Grows idle v.id (env.can_run_on w v) v w db u)
      (λ _ db' g. omega (arith, g, is_at_capacity-lt db v free))

-- Every worker that is waiting for a work request is not at capacity.
waiting_with_room :
    (db : Db) (ws : List Worker)
    → All (λ v. is_waiting db v ≡ true) ws
    → All (λ v. is_at_capacity db v ≡ false) ws
unfolding is_at_capacity
waiting_with_room db [] h = tt
waiting_with_room db (v ∷ vs) h =
    (ground (arith, h.0, same_count v.id db.rows), waiting_with_room db vs h.1)

asked_before_asym : (a b : Worker) → asked_before a b ≡ true → asked_before b a ≡ false
asked_before_asym a b h = ground arith

asked_before_trans :
    (a b c : Worker)
    → asked_before b a ≡ false
    → asked_before c b ≡ false
    → asked_before c a ≡ false
asked_before_trans a b c h k = ground arith

-- `waiting_for_work_request` lists the workers by pool, those outside every pool first, and then by
-- the time of their connection, and none of them is at capacity: its count in SQL and
-- `is_at_capacity` agree.
pub waiting_for_work_request-IsOrdered :
    (db : Db)
    → IsOrdered asked_before (waiting_for_work_request db)
      × All (λ v. is_at_capacity db v ≡ false) (waiting_for_work_request db)
unfolding waiting_for_work_request
waiting_for_work_request-IsOrdered db =
    let P = λ (v : Worker). Unit {0} × (is_waiting db v ≡ true) in
    let listed = filter-All (λ _. Unit {0}) (is_waiting db) db.workers (All-any db.workers) in
    (
      sort_by-IsOrdered asked_before asked_before_asym asked_before_trans
          (filter (is_waiting db) db.workers),
      sort_by-All asked_before (λ v. is_at_capacity db v ≡ false)
          (filter (is_waiting db) db.workers)
          (waiting_with_room db (filter (is_waiting db) db.workers)
            (All-map P _ (filter (is_waiting db) db.workers) (λ v h. h.1) listed)),
    )
