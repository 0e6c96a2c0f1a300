-- ===== src/Scheduling/Assignment.antt =====
-- `_assign_work_request_to_worker` ends, and what it returns is assigned to the worker.
use debusine.Lifecycle.Advance.{Settles, Settles-refl, Settles-trans}
use debusine.Lifecycle.Live.{UniqueIds}
use debusine.Prelude.{
  Bool, true, false, ◌≡◌, arith, List, [], ◌∷◌, Option, some, none, refl, not, is_none, String, ℕ,
  subst, if◌then◌else◌, sym,
}
use debusine.WorkRequests.{
  WorkRequest, Worker, Db, Post, Post-choice, ok, find, found, write, hooked, and_then, logged,
  Hook, replace,
}
use debusine.Scheduling.{
  Environment, Attempt, Reaction, Assigned, IsForward, assign_work_request_to_worker, assign_worker,
  assignment, assign_locked, assign_runnable, assign_configured, is_server, save_assignment,
  reacted, IsSaved,
}
use debusine.Scheduling.Writes.{find-replace-Settles, find-replace-Any}
use debusine.Prelude.Members.{put_back}

-- `w` was a candidate that can run on the worker, and `self` is its row, assigned to the worker and
-- saved so.
pub record IsAssignment (env : Environment) (v : Worker) (w self : WorkRequest)
    (rows : List WorkRequest) : Type 0 where
  pub same : self.id ≡ w.id
  pub worker : self.worker ≡ some v.id
  pub saved : IsSaved w.id v.id rows
  pub runnable : env.can_run_on w v ≡ Attempt.success true

abbrev pub Fits : Environment → Worker → WorkRequest → Assigned → List WorkRequest → Type 0
Fits env v w (Assigned.assigned self) rows = IsAssignment env v w self rows
Fits env v w Assigned.unassigned rows = Unit {0}
Fits env v w (Assigned.broken message code) rows = Unit {0}

-- What `assign_worker` does where it returns.
abbrev Gives : Worker → WorkRequest → (Reaction × WorkRequest) × Db → Type 0
Gives v w ((Reaction.returned, self), db) =
    (self.id ≡ w.id) × (self.worker ≡ some v.id) × IsSaved w.id v.id db.rows
Gives v w ((Reaction.skipped, self), db) = Unit {0}
Gives v w ((Reaction.failed message, self), db) = Unit {0}

found-id : (k : ℕ) (rows : List WorkRequest) (r : WorkRequest) → find k rows ≡ some r → r.id ≡ k
found-id k [] r e = absurd (cc)
found-id k (x ∷ xs) r e = ground (arith, found-id k xs r)

module _ {env : Environment} (forward : IsForward env) where
  configured-Settles :
      (o : Option String) (v : Worker) (self : WorkRequest) (db : Db)
      → UniqueIds db.rows
      → find self.id db.rows ≡ some self
      → Settles db.rows (assign_configured env o v self db).1.rows
  unfolding write logged
  configured-Settles (some m) v self db u f = Settles-refl db.rows
  configured-Settles none v self db u f =
      let w = record self { worker = some v.id } in
      Settles-trans db.rows (replace w db.rows) _ (find-replace-Settles self w db.rows u f refl)
        (forward.forward w (save_assignment env v self db))

  reacted-Gives :
      (v : Worker) (w self : WorkRequest) (o : Reaction × Db)
      → self.id ≡ w.id
      → self.worker ≡ some v.id
      → IsSaved w.id v.id o.1.rows
      → Gives v w (reacted env self o)
  reacted-Gives v w self (Reaction.returned, db) e f s = (e, f, s)
  reacted-Gives v w self (Reaction.skipped, db) e f s = tt
  reacted-Gives v w self (Reaction.failed m, db) e f s = tt

  configured-Gives :
      (o : Option String) (v : Worker) (w self : WorkRequest) (db : Db)
      → self.id ≡ w.id
      → find self.id db.rows ≡ some self
      → Gives v w (assign_configured env o v self db)
  unfolding write logged
  configured-Gives (some m) v w self db e f = tt
  configured-Gives none v w self db e f =
      let saved = record self { worker = some v.id } in
      let written : IsSaved w.id v.id (save_assignment env v self db).rows =
        put_back (λ r. (r.id ≡ w.id) × (r.worker ≡ some v.id)) (replace saved db.rows) saved
          (find-replace-Any self saved db.rows f) (e, refl) in
      reacted-Gives v w saved (env.on_assignment saved (save_assignment env v self db)) e refl
        (forward.keeps saved (save_assignment env v self db) w.id v.id written)

  assignment-Post :
      (v : Worker) (w : WorkRequest) (db : Db) (o : (Reaction × WorkRequest) × Db)
      → Gives v w o
      → env.can_run_on w v ≡ Attempt.success true
      → Settles db.rows o.1.rows
      → Post (λ a db'. Settles db.rows db'.rows × Fits env v w a db'.rows) (ok (assignment env w o))
  unfolding hooked
  assignment-Post v w db ((Reaction.returned, self), db') gives runs s = go (is_server w.task_type)
    where
      fits : IsAssignment env v w self db'.rows
      fits = record { same = gives.0; worker = gives.1; saved = gives.2; runnable = runs }

      go :
          (b : Bool)
          → Post
              (λ a db'. Settles db.rows db'.rows × Fits env v w a db'.rows)
              (ok (
                if b
                then (Assigned.assigned self, hooked (Hook.run_server_task self.id) db')
                else (Assigned.assigned self, db')))
      go true = (s, fits)
      go false = (s, fits)
  assignment-Post v w db ((Reaction.skipped, self), db') gives runs s = (s, tt)
  assignment-Post v w db ((Reaction.failed m, self), db') gives runs s = (s, tt)

  locked-Post :
      (v : Worker) (w self : WorkRequest) (db : Db)
      → UniqueIds db.rows
      → find w.id db.rows ≡ some self
      → env.can_run_on w v ≡ Attempt.success true
      → Post
          (λ a db'. Settles db.rows db'.rows × Fits env v w a db'.rows)
          (assign_locked env w v (some self) db)
  unfolding assign_worker
  locked-Post v w self db u f runs =
      let named = found-id w.id db.rows self f in
      Post-choice (λ a db'. Settles db.rows db'.rows × Fits env v w a db'.rows)
        (not (is_none self.worker)) _ _ (λ _. (Settles-refl db.rows, tt))
        (λ _.
          let here = subst (λ k. find k db.rows ≡ some self) (sym named) f in
          let tried = env.configure_for_worker self v in
          assignment-Post v w db (assign_worker env v self db)
            (configured-Gives tried v w self db named here) runs
            (configured-Settles tried v self db u here))

  found-Post :
      (v : Worker) (w : WorkRequest) (db : Db) (o : Option WorkRequest)
      → ((self : WorkRequest)
          → o ≡ some self
          → Post
              (λ a db'. Settles db.rows db'.rows × Fits env v w a db'.rows)
              (assign_locked env w v (some self) db))
      → Post
          (λ a db'. Settles db.rows db'.rows × Fits env v w a db'.rows)
          (and_then (found o db) (assign_locked env w v))
  found-Post v w db none h = tt
  found-Post v w db (some self) h = h self refl

  runnable-Post :
      (o : Attempt Bool) (v : Worker) (w : WorkRequest) (db : Db)
      → UniqueIds db.rows
      → env.can_run_on w v ≡ o
      → Post
          (λ a db'. Settles db.rows db'.rows × Fits env v w a db'.rows)
          (assign_runnable env o w v db)
  runnable-Post (Attempt.failure m) v w db u e = (Settles-refl db.rows, tt)
  runnable-Post (Attempt.success false) v w db u e = (Settles-refl db.rows, tt)
  runnable-Post (Attempt.success true) v w db u e =
      Post-choice (λ a db'. Settles db.rows db'.rows × Fits env v w a db'.rows)
        (not (env.locks_row w)) _ _ (λ _. (Settles-refl db.rows, tt))
        (λ _. found-Post v w db (find w.id db.rows) (λ self f. locked-Post v w self db u f e))

  pub assign-Post :
      (v : Worker) (w : WorkRequest) (db : Db)
      → UniqueIds db.rows
      → Post
          (λ a db'. Settles db.rows db'.rows × Fits env v w a db'.rows)
          (assign_work_request_to_worker env w v db)
  unfolding assign_work_request_to_worker
  assign-Post v w db u = runnable-Post (env.can_run_on w v) v w db u refl
