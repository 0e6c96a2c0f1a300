-- ===== src/Lifecycle/Requests/Retry.antt =====
-- `retry` of debusine/db/models/work_requests.py: a new work request takes the place of one that was
-- aborted or has failed.
use debusine.Lifecycle.Reactions.{Reactions}
use debusine.Lifecycle.Updates.{mark_pending, schedule_workflow_update}
use debusine.Lifecycle.Requests.Unblock.{add_dependency}
use debusine.Prelude.{
  ℕ, suc, Bool, true, false, not, ◌&&◌, ◌||◌, ◌==◌, leb, Option, none, some, List, [], ◌∷◌, ◌++◌,
  filter, if◌then◌else◌, is_none,
}
use debusine.WorkRequests.{
  WorkRequest, Db, M, Outcome, ok, raise, cannot_retry, permission_denied, and_then, ◌>>◌, ◌>>=◌,
  pure, modify, save, stored, logged, Effect, fetch_parent, for_each, TaskTypes, Statuses, Results,
  RetryReason, is_workflow_type,
}
use debusine.WorkRequests.Query.{
  superseded, is_aborted_failed, dependencies, reverse_dependencies, can_be_automatically_unblocked,
}

abbrev can_be_retried : TaskTypes → Bool
can_be_retried TaskTypes.workflow = true
can_be_retried TaskTypes.worker = true
can_be_retried TaskTypes.internal = true
can_be_retried TaskTypes.signing = true
can_be_retried _ = false

abbrev is_internal : TaskTypes → Bool
is_internal TaskTypes.internal = true
is_internal _ = false

-- `satisfiable` is `can_satisfy_dynamic_data`, which asks the task.
abbrev pub verify_retry : Bool → Db → WorkRequest → Outcome (Unit {0})
verify_retry satisfiable db self =
    if not (can_be_retried self.task_type)
    then raise cannot_retry
    else if superseded db self
    then raise cannot_retry
    else if not (is_aborted_failed self)
    then raise cannot_retry
    else if is_internal self.task_type || is_workflow_type self.task_type
    then ok tt
    else if not satisfiable
    then raise cannot_retry
    else ok tt

abbrev is_automatic : RetryReason → Bool
is_automatic RetryReason.worker_failed = true
is_automatic RetryReason.delay = true
is_automatic RetryReason.manual = false

abbrev pub is_worker_failed : RetryReason → Bool
is_worker_failed RetryReason.worker_failed = true
is_worker_failed _ = false

abbrev pub max_automatic_retries : ℕ
max_automatic_retries = 3

-- A key that no row has.
abbrev next_key : List WorkRequest → ℕ
next_key [] = 1
next_key (r ∷ rs) = let k = next_key rs in if leb k r.id then suc r.id else k

-- `WorkRequest.objects.create(…, supersedes=self)`.
abbrev pub successor : WorkRequest → Db → WorkRequest
successor self db = record self {
  id = next_key db.rows;
  created_at = db.now;
  started_at = none;
  completed_at = none;
  aborted_by = none;
  status = Statuses.blocked;
  workflows_need_update = false;
  result = Results.no_result;
  worker = none;
  output_data = none;
  internal_collection = none;
  supersedes = some self.id;
}

abbrev pub inserted : WorkRequest → Db → Db
inserted w db = stored w (record db { rows = db.rows ++ w ∷ [] })

unfoldable pub add_dependencies : List WorkRequest → WorkRequest → M WorkRequest
unfolding add_dependency
add_dependencies [] self db = ok (self, db)
add_dependencies (d ∷ ds) self db = and_then (add_dependency self d db) (add_dependencies ds)

abbrev removed : ℕ → ℕ → Db → Db
removed a b db = record db {
  depends = filter (λ (p : ℕ × ℕ). not (p.0 == a && p.1 == b)) db.depends;
}

-- A reverse dependency of the old work request comes to depend on the new one.
abbrev pub redirect : WorkRequest → WorkRequest → WorkRequest → M WorkRequest
redirect old new dep db = add_dependency dep new (removed dep.id old.id db)

abbrev pub revive : Option WorkRequest → M (Unit {0})
revive none = pure tt
revive (some workflow) =
    if is_aborted_failed workflow
    then save (record workflow {
      status = Statuses.running;
      result = Results.no_result;
      completed_at = none;
    })
    else pure tt

abbrev pub next_count : RetryReason → ℕ → ℕ
next_count reason n = if is_automatic reason then suc n else 0

abbrev pub counted : RetryReason → WorkRequest → WorkRequest
counted reason w = record w {
  workflow_data = record w.workflow_data {
    retry_count = next_count reason w.workflow_data.retry_count;
  };
}

module _ (reactions : Reactions) where
  abbrev pub unblock_new : WorkRequest → M WorkRequest
  unblock_new w db =
      if can_be_automatically_unblocked db w
      then and_then (mark_pending reactions w db) (λ (w', _). pure w')
      else ok (w, db)

  abbrev pub move_promises : Option WorkRequest → WorkRequest → WorkRequest → M (Unit {0})
  move_promises none old new = pure tt
  move_promises (some workflow) old new =
      if is_none workflow.internal_collection
      then pure tt
      else modify (logged (Effect.move_promises old.id new.id))

  unfoldable pub retry_supersede : RetryReason → WorkRequest → M WorkRequest
  unfolding add_dependencies for_each mark_pending stored logged schedule_workflow_update
      fetch_parent reverse_dependencies dependencies can_be_automatically_unblocked add_dependency
  retry_supersede reason self = do
    parent ← fetch_parent self
    new ← λ db. ok (successor self db, inserted (successor self db) db)
    linked ← λ db. add_dependencies (dependencies db self) new db
    λ db. for_each (reverse_dependencies db self) (redirect self linked) db
    revive parent
    save (counted reason linked)
    ready ← unblock_new (counted reason linked)
    move_promises parent self ready
    schedule_workflow_update parent self
    pure ready

  abbrev pub retry_checked :
      (RetryReason → WorkRequest → M WorkRequest)
      → RetryReason
      → WorkRequest
      → Outcome (Unit {0})
      → M WorkRequest
  retry_checked retry_workflow reason self (raise e) db = raise e
  retry_checked retry_workflow reason self (ok _) db =
      if is_worker_failed reason && leb max_automatic_retries self.workflow_data.retry_count
      then raise cannot_retry
      else if is_workflow_type self.task_type
      then retry_workflow reason self db
      else retry_supersede reason self db

  -- `retry_workflow` is the branch for workflows, which runs their orchestrators.
  unfoldable pub retry :
      (RetryReason → WorkRequest → M WorkRequest)
      → Bool
      → Bool
      → RetryReason
      → WorkRequest
      → M WorkRequest
  unfolding retry_supersede superseded
  retry retry_workflow allowed satisfiable reason self db =
      if allowed
      then retry_checked retry_workflow reason self (verify_retry satisfiable db self) db
      else raise permission_denied
