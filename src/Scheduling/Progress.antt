-- ===== src/Scheduling/Progress.antt =====
-- The scheduler's transactions end, and what `schedule_for_worker` returns is assigned.
use debusine.Lifecycle.Advance.{Settles, Settles-refl, Settles-trans}
use debusine.Lifecycle.Live.{UniqueIds, Settles-UniqueIds}
use debusine.Prelude.{true, ◌≡◌, List, [], ◌∷◌, Option, some, none, refl, not, All, filter}
use debusine.WorkRequests.{
  WorkRequest, Worker, Db, Post, Post-choice, ok, M, Outcome, Post-bind, Post-map, raise, Results,
}
use debusine.Scheduling.{
  Environment, Assigned, IsForward, assign_work_request_to_worker, is_candidate, try_each,
  schedule_for_worker, resume, try_queue, is_at_capacity, error_output,
}
use debusine.Lifecycle.Reactions.{Reactions, IsQuiet}
use debusine.Lifecycle.Termination.{mark_completed-Settles, EndsActive}
use debusine.WorkRequests.Query.{pending}
use debusine.Scheduling.Candidates.{IsCandidate, candidates-IsCandidate}
use debusine.Scheduling.Assignment.{IsAssignment, Fits, assign-Post}

-- Nothing, or the assigned row of a candidate that can run on the worker.
abbrev pub IsChosen : Db → Environment → Worker → Option WorkRequest → List WorkRequest → Type 0
IsChosen db env v none rows = Unit {0}
IsChosen db env v (some self) rows =
    (w : WorkRequest) × IsCandidate db env v w × IsAssignment env v w self rows

module _ {env : Environment} (forward : IsForward env) {reactions : Reactions}
    (quiet : IsQuiet reactions) (start : Db) (v : Worker) where
  abbrev Step : Db → Option WorkRequest → Db → Type 0
  Step db o db' = Settles db.rows db'.rows × IsChosen start env v o db'.rows

  resume-Post :
      (w : WorkRequest) (db0 : Db) (rest : M (Option WorkRequest)) (a : Assigned) (db : Db)
      → IsCandidate start env v w
      → UniqueIds db.rows
      → Settles db0.rows db.rows
      → Fits env v w a db.rows
      → ((db' : Db) → Settles db0.rows db'.rows → Post (Step db') (rest db'))
      → Post (Step db0) (resume env reactions w rest a db)
  resume-Post w db0 rest (Assigned.assigned self) db c u s fits next = (s, (w, c, fits))
  resume-Post w db0 rest Assigned.unassigned db c u s fits next =
      Post-map (Step db) (Step db0) _ (next db s)
        (λ _ db' h. (Settles-trans db0.rows db.rows db'.rows s h.0, h.1))
  resume-Post w db0 rest (Assigned.broken message code) db c u s fits next =
      Post-bind (λ _ db'. EndsActive w db.rows db'.rows) (Step db0) _ (λ _. rest)
        (mark_completed-Settles quiet Results.error (some (error_output env message code)) w db
          (λ e. cc) u)
        (λ _ db1 h.
          let t = Settles-trans db0.rows db.rows db1.rows s h.0 in
          Post-map (Step db1) (Step db0) _ (next db1 t)
            (λ _ db' k. (Settles-trans db0.rows db1.rows db'.rows t k.0, k.1)))

  try_each-Post :
      (ws : List WorkRequest) (db : Db)
      → UniqueIds db.rows
      → All (IsCandidate start env v) ws
      → Post (Step db) (try_each env reactions v ws db)
  unfolding try_each
  try_each-Post [] db u cs = (Settles-refl db.rows, tt)
  try_each-Post (w ∷ ws) db u cs =
      Post-bind (λ a db'. Settles db.rows db'.rows × Fits env v w a db'.rows) (Step db)
        (assign_work_request_to_worker env w v db) _ (assign-Post forward v w db u)
        (λ a db1 h.
          resume-Post w db (try_each env reactions v ws) a db1 cs.0
            (Settles-UniqueIds db.rows db1.rows h.0 u) h.0 h.1
            (λ db' s. try_each-Post ws db' (Settles-UniqueIds db.rows db'.rows s u) cs.1))

module _ {env : Environment} (forward : IsForward env) {reactions : Reactions}
    (quiet : IsQuiet reactions) where
  queue-Post :
      (v : Worker) (db : Db) (o : Outcome (List WorkRequest))
      → UniqueIds db.rows
      → pending db true none ≡ o
      → Post
          (λ o db'. Settles db.rows db'.rows × IsChosen db env v o db'.rows)
          (try_queue env reactions v o db)
  unfolding pending
  queue-Post v db (raise e) u h = absurd (cc)
  queue-Post v db (ok queue) u h =
      try_each-Post forward quiet db v (filter (is_candidate env v) queue) db u
        (candidates-IsCandidate db env v queue h)

  -- Given unique keys, reactions that return and leave the work requests alone, and actions on
  -- assignment that move no status back and leave the rows with their workers, `schedule_for_worker`
  -- raises nothing but the `DoesNotExist` of a row that is gone; where it returns, no status has gone
  -- back, and a work request that it returns is assigned to the worker, and so is the saved row; it
  -- has the key of a row that was pending without a worker, that is a worker, server or signing task
  -- whose name is in the worker's allowlist, or not in its denylist where it has no allowlist, and
  -- that can run on the worker.
  pub schedule_for_worker-IsChosen :
      (v : Worker) (db : Db)
      → UniqueIds db.rows
      → Post
          (λ o db'. Settles db.rows db'.rows × IsChosen db env v o db'.rows)
          (schedule_for_worker env reactions v db)
  unfolding schedule_for_worker
  schedule_for_worker-IsChosen v db u =
      let Q = λ (o : Option WorkRequest) (db' : Db).
        Settles db.rows db'.rows × IsChosen db env v o db'.rows in
      Post-choice Q (is_at_capacity db v) _ _ (λ _. (Settles-refl db.rows, tt))
        (λ _.
          Post-choice Q (not (env.locks_worker v)) _ _ (λ _. (Settles-refl db.rows, tt))
            (λ _. queue-Post v db (pending db true none) u refl))
