-- ===== src/Scheduling/Tests.antt =====
-- The scheduler on a small database, and its theorems at it.
use debusine.Prelude.Int.{◌+ℤ◌}
use debusine.Lifecycle.Reactions.{recorded, recorded-IsQuiet}
use debusine.Lifecycle.Advance.{Settles, Settles-refl}
use debusine.Lifecycle.Live.{UniqueIds}
use debusine.Samples.{sample, flow, row, builder}
use debusine.Prelude.{ℕ, true, ◌≡◌, ◌≤◌, arith, List, [], ◌∷◌, Option, some, none, refl, map}
use debusine.WorkRequests.{
  WorkRequest, Db, TaskTypes, Outcome, ok, raise, Keeps, Post, Statuses, fetch_parent, for_each,
}
use debusine.Scheduling.{
  schedule, Environment, Attempt, Reaction, schedule_for_worker, assign_work_request_to_worker,
  IsForward, is_at_capacity,
}
use debusine.Scheduling.Capacity.{IsIdle, assign-within, occupied}
use debusine.Scheduling.Progress.{IsChosen, schedule_for_worker-IsChosen}

-- A worker that can run every task, and takes no task of the name "noop-denied".
abbrev open_host : Environment
open_host = record {
  can_run_on = λ w v. Attempt.success true;
  configure_for_worker = λ w v. none;
  on_assignment = λ w db. (Reaction.returned, db);
  tasks_allowlist = λ v. none;
  tasks_denylist = λ v. "noop-denied" ∷ [];
  locks_worker = λ v. true;
  locks_row = λ w. true;
  delay_until = λ w. some 50;
}

-- The same with tasks whose configuration is broken.
abbrev broken_host : Environment
broken_host = record open_host { can_run_on = λ w v. Attempt.failure "no such task" }

abbrev denied : WorkRequest
denied = record (row 2 TaskTypes.worker Statuses.pending (some 1)) { task_name = "noop-denied" }

abbrev waiting_job : WorkRequest
waiting_job = row 3 TaskTypes.worker Statuses.pending (some 1)

abbrev delay : WorkRequest
delay = record (row 5 TaskTypes.wait Statuses.running (some 1)) { task_name = "delay" }

abbrev queued : Db
queued = record sample { rows = flow ∷ denied ∷ waiting_job ∷ delay ∷ []; depends = [] }

queued-UniqueIds : UniqueIds queued.rows
queued-UniqueIds = omega arith

workers_after : {A : Type 0} → Outcome (A × Db) → List (Option ℕ)
workers_after (ok (a, db)) = map (λ r. r.worker) db.rows
workers_after (raise e) = []

statuses_after : {A : Type 0} → Outcome (A × Db) → List Statuses
statuses_after (ok (a, db)) = map (λ r. r.status) db.rows
statuses_after (raise e) = []

-- The first work request that the worker's lists allow is assigned.
assigns_allowed :
    workers_after (schedule_for_worker open_host recorded builder queued)
    ≡ none ∷ none ∷ some 7 ∷ none ∷ []
unfolding schedule_for_worker workers_after ◌+ℤ◌
assigns_allowed = refl

-- A broken work request is completed with an error.
completes_broken :
    statuses_after (schedule_for_worker broken_host recorded builder queued)
    ≡ Statuses.running ∷ Statuses.pending ∷ Statuses.completed ∷ Statuses.running ∷ []
unfolding schedule_for_worker statuses_after ◌+ℤ◌ fetch_parent for_each
completes_broken = refl

open_host-IsForward : IsForward open_host
open_host-IsForward = record { forward = λ w db. Settles-refl db.rows; keeps = λ w db k v h. h }

open_host-IsIdle : IsIdle open_host
open_host-IsIdle = record { idle = λ w db. refl }

schedule_for_worker-IsChosen_example :
    Post
      (λ o db'. Settles queued.rows db'.rows × IsChosen queued open_host builder o db'.rows)
      (schedule_for_worker open_host recorded builder queued)
schedule_for_worker-IsChosen_example =
    schedule_for_worker-IsChosen open_host-IsForward recorded-IsQuiet builder queued
      queued-UniqueIds

assign-within_example :
    Keeps
      (λ rows. occupied 7 rows ≤ 1)
      (assign_work_request_to_worker open_host waiting_job builder queued)
unfolding is_at_capacity
assign-within_example =
    assign-within open_host-IsIdle builder waiting_job queued queued-UniqueIds refl

-- One run of the scheduler: the allowed task is assigned and the expired delay completed.
schedule_runs :
    statuses_after (schedule open_host recorded [] queued)
    ≡ Statuses.running ∷ Statuses.pending ∷ Statuses.pending ∷ Statuses.completed ∷ []
unfolding schedule statuses_after ◌+ℤ◌ fetch_parent for_each
schedule_runs = refl
