-- ===== src/Scheduling/External.antt =====
-- What the scheduler calls that the model does not define: the tasks (`get_task`, `can_run_on`,
-- `configure_for_worker`), the worker's metadata, the row locks of the database and the actions of
-- `process_event_reactions("on_assignment")`.
use debusine.Prelude.{Bool, Option, List, String, ℕ, ◌≡◌, some, Any}
use debusine.WorkRequests.{WorkRequest, Worker, Db}
use debusine.Lifecycle.Advance.{Settles}

-- A call that returns, or raises an exception with a message.
pub data Attempt (A : Type 0) : Type 0 where
  success : A → Attempt A
  failure : String → Attempt A

-- How `assign_worker` ends: it returns, raises SkipWorkRequest or raises another exception. What it
-- wrote before is kept, since the exceptions are caught inside the transaction.
pub data Reaction : Type 0 where
  returned skipped : Reaction
  failed : String → Reaction

pub record Environment : Type 0 where
  -- `work_request.get_task(worker=worker)` and `task.can_run_on(worker.metadata())`.
  pub can_run_on : WorkRequest → Worker → Attempt Bool
  -- `configure_for_worker`: the message of the exception, if there is one.
  pub configure_for_worker : WorkRequest → Worker → Option String
  pub on_assignment : WorkRequest → Db → Reaction × Db
  pub tasks_allowlist : Worker → Option (List String)
  pub tasks_denylist : Worker → List String
  -- `select_for_update(nowait=True)` gets the lock.
  pub locks_worker : Worker → Bool
  pub locks_row : WorkRequest → Bool
  -- The column `task_data__delay_until` of a delay task.
  pub delay_until : WorkRequest → Option ℕ

-- The row with the key `k` is assigned to the worker with the key `v`.
abbrev pub IsSaved : ℕ → ℕ → List WorkRequest → Type 0
IsSaved k v rows = Any (λ r. (r.id ≡ k) × (r.worker ≡ some v)) rows

-- The actions on assignment move no status back, and leave the rows with the workers that they are
-- assigned to. One that skips the work request completes it.
pub record IsForward (env : Environment) : Type 0 where
  pub forward : (w : WorkRequest) (db : Db) → Settles db.rows (env.on_assignment w db).1.rows
  pub keeps :
      (w : WorkRequest) (db : Db) (k v : ℕ)
      → IsSaved k v db.rows
      → IsSaved k v (env.on_assignment w db).1.rows
