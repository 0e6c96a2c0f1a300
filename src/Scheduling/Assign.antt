-- ===== src/Scheduling/Assign.antt =====
-- `schedule_for_worker` of debusine/server/scheduler.py, and `WorkRequest.assign_worker`.
use debusine.Prelude.{
  Bool, true, false, ◌&&◌, not, Option, some, none, List, [], ◌∷◌, filter, is_none, String, str_eq,
  if◌then◌else◌, any, str_append,
}
use debusine.WorkRequests.{
  WorkRequest, Worker, Db, M, Outcome, ok, raise, and_then, write, logged, Effect, hooked, Hook,
  needs_worker, TaskTypes, Results, OutputData, Field, found, find,
}
use debusine.WorkRequests.Query.{pending}
use debusine.Lifecycle.{mark_completed}
use debusine.Lifecycle.Reactions.{Reactions}
use debusine.Scheduling.External.{Environment, Attempt, Reaction}
use debusine.Scheduling.Workers.{is_at_capacity}

-- What `_assign_work_request_to_worker` returns; `broken` is its exception AssignToWorkerError.
pub data Assigned : Type 0 where
  assigned : WorkRequest → Assigned
  unassigned : Assigned
  broken : (message code : String) → Assigned

abbrev pub is_server : TaskTypes → Bool
is_server TaskTypes.server = true
is_server _ = false

module _ (env : Environment) where
  abbrev pub save_assignment : Worker → WorkRequest → Db → Db
  save_assignment worker self db =
      logged (Effect.notify_assigned self.id) (write (record self { worker = some worker.id }) db)

  -- How the actions end, with the instance that was saved before them.
  abbrev pub reacted : WorkRequest → Reaction × Db → (Reaction × WorkRequest) × Db
  reacted self (reaction, db) = ((reaction, self), db)

  abbrev pub assign_configured :
      Option String → Worker → WorkRequest → Db → (Reaction × WorkRequest) × Db
  assign_configured (some message) worker self db = ((Reaction.failed message, self), db)
  assign_configured none worker self db =
      let saved = record self { worker = some worker.id } in
      reacted saved (env.on_assignment saved (save_assignment worker self db))

  -- With scheduling disabled, as its caller has it: how it ends, and the instance after it.
  unfoldable pub assign_worker : Worker → WorkRequest → Db → (Reaction × WorkRequest) × Db
  unfolding write logged
  assign_worker worker self db =
      assign_configured (env.configure_for_worker self worker) worker self db

  -- What follows `assign_worker`: its exceptions, and the Celery task of a server task.
  abbrev pub assignment : WorkRequest → (Reaction × WorkRequest) × Db → Assigned × Db
  assignment task ((Reaction.returned, self), db) =
      if is_server task.task_type
      then (Assigned.assigned self, hooked (Hook.run_server_task self.id) db)
      else (Assigned.assigned self, db)
  assignment task ((Reaction.skipped, self), db) = (Assigned.unassigned, db)
  assignment task ((Reaction.failed message, self), db) = (
    Assigned.broken (str_append "Failed to compute dynamic data: " message) "dynamic-data-failed",
    db,
  )

  abbrev pub assign_locked : WorkRequest → Worker → Option WorkRequest → M Assigned
  assign_locked task worker none db = ok (Assigned.unassigned, db)
  assign_locked task worker (some self) db =
      if not (is_none self.worker)
      then ok (Assigned.unassigned, db)
      else ok (assignment task (assign_worker worker self db))

  -- By the outcome of `get_task` and `can_run_on`.
  abbrev pub assign_runnable : Attempt Bool → WorkRequest → Worker → M Assigned
  assign_runnable (Attempt.failure message) w worker db =
      ok (Assigned.broken (str_append "Failed to configure: " message) "configure-failed", db)
  assign_runnable (Attempt.success false) w worker db = ok (Assigned.unassigned, db)
  assign_runnable (Attempt.success true) w worker db =
      if not (env.locks_row w)
      then ok (Assigned.unassigned, db)
      else and_then (found (find w.id db.rows) db) (assign_locked w worker)

  unfoldable pub assign_work_request_to_worker : WorkRequest → Worker → M Assigned
  unfolding assign_worker hooked
  assign_work_request_to_worker w worker db = assign_runnable (env.can_run_on w worker) w worker db

  abbrev pub is_listed : List String → String → Bool
  is_listed names name = any (str_eq name) names

  -- An allowlist, also an empty one, makes the denylist void.
  abbrev pub is_allowed : Option (List String) → List String → WorkRequest → Bool
  is_allowed (some names) denied w = is_listed names w.task_name
  is_allowed none denied w = not (is_listed denied w.task_name)

  abbrev pub is_candidate : Worker → WorkRequest → Bool
  is_candidate worker w =
      needs_worker w.task_type
      && is_allowed (env.tasks_allowlist worker) (env.tasks_denylist worker) w

  -- The output data of a work request that cannot be assigned.
  abbrev pub error_output : String → String → OutputData
  error_output message code = record {
    runtime_statistics = Field.unset;
    errors = Field.given (some (record { message = message; code = code } ∷ []));
    skip_reason = Field.unset;
    regression_analysis = Field.unset;
  }

  module _ (reactions : Reactions) where
    -- The end of the loop's body: `rest` is the loop on the work requests that are left.
    abbrev pub resume : WorkRequest → M (Option WorkRequest) → Assigned → M (Option WorkRequest)
    resume w rest (Assigned.assigned self) db = ok (some self, db)
    resume w rest Assigned.unassigned db = rest db
    resume w rest (Assigned.broken message code) db =
        and_then (mark_completed reactions Results.error (some (error_output message code)) w db)
          (λ _. rest)

    unfoldable pub try_each : Worker → List WorkRequest → M (Option WorkRequest)
    unfolding assign_work_request_to_worker mark_completed
    try_each worker [] db = ok (none, db)
    try_each worker (w ∷ ws) db =
        and_then (assign_work_request_to_worker w worker db) (resume w (try_each worker ws))

    abbrev pub try_queue : Worker → Outcome (List WorkRequest) → M (Option WorkRequest)
    try_queue worker (raise e) db = raise e
    try_queue worker (ok queue) db = try_each worker (filter (is_candidate worker) queue) db

    unfoldable pub schedule_for_worker : Worker → M (Option WorkRequest)
    unfolding try_each is_at_capacity pending
    schedule_for_worker worker db =
        if is_at_capacity db worker
        then ok (none, db)
        else if not (env.locks_worker worker)
        then ok (none, db)
        else try_queue worker (pending db true none) db
