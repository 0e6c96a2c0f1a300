-- ===== src/Lifecycle/Tests.antt =====
-- The cascade on the sample database, and its theorems at it.
use debusine.WorkRequests.{
  Outcome, Keeps, Db, Results, Statuses, ok, raise, fetch_parent, for_each, WorkRequest, TaskTypes,
}
use debusine.Lifecycle.Cascade.{mark_completed, mark_aborted}
use debusine.Lifecycle.Live.{UniqueIds, Ends}
use debusine.Lifecycle.Propagation.{IsBlockedOn, mark_completed-Ends}
use debusine.Lifecycle.Reactions.{recorded, recorded-IsQuiet}
use debusine.Samples.{sample, follower, job, flow, row, builder}
use debusine.Lifecycle.Advance.{Settles}
use debusine.Prelude.{arith, some, List, none, inr, ◌≡◌, inl, ◌∷◌, refl, map, [], ◌≤◌}
use debusine.Lifecycle.Termination.{EndsActive, mark_completed-Settles, mark_aborted-Settles}
use debusine.Lifecycle.Updates.{mark_pending, mark_running}
use debusine.WorkRequests.Query.{can_be_unblocked}
use debusine.Lifecycle.Capacity.{running_on, mark_running-within}

statuses_after : {A : Type 0} → Outcome (A × Db) → List Statuses
statuses_after (ok (a, db)) = map (λ r. r.status) db.rows
statuses_after (raise e) = []

program : Unit {0}
unfolding mark_completed mark_aborted mark_pending fetch_parent for_each can_be_unblocked
program = tt

-- A success releases the next task only.
success_releases_next :
    statuses_after (mark_completed recorded Results.success none job sample)
    ≡ Statuses.running ∷ Statuses.completed ∷ Statuses.pending ∷ Statuses.blocked ∷ []
unfolding program statuses_after
success_releases_next = refl

-- A failure aborts the tasks that wait, and with them the workflow.
failure_aborts_all :
    statuses_after (mark_completed recorded Results.failure none job sample)
    ≡ Statuses.aborted ∷ Statuses.completed ∷ Statuses.aborted ∷ Statuses.aborted ∷ []
unfolding program statuses_after
failure_aborts_all = refl

sample-UniqueIds : UniqueIds sample.rows
sample-UniqueIds = omega arith

follower-IsBlockedOn : IsBlockedOn sample 2 follower
follower-IsBlockedOn = record { row = inr (inr (inl refl)); depends = refl; blocked = refl }

mark_completed-Settles_example :
    Keeps (EndsActive job sample.rows) (mark_completed recorded Results.failure none job sample)
mark_completed-Settles_example =
    mark_completed-Settles recorded-IsQuiet Results.failure none job sample (λ e. cc)
      sample-UniqueIds

mark_aborted-Settles_example :
    Keeps
      (λ rows. Settles sample.rows rows × Ends 2 rows)
      (mark_aborted recorded (some 1) job sample)
mark_aborted-Settles_example =
    mark_aborted-Settles recorded-IsQuiet (some 1) job sample sample-UniqueIds

mark_completed-Ends_example :
    Keeps (Ends 3) (mark_completed recorded Results.failure none job sample)
mark_completed-Ends_example =
    mark_completed-Ends recorded-IsQuiet Results.failure none follower job sample refl (λ e. cc)
      refl follower-IsBlockedOn (λ e. omega arith) sample-UniqueIds

abbrev ready_job : WorkRequest
ready_job = record (row 2 TaskTypes.worker Statuses.pending (some 1)) { worker = some 7 }

abbrev before_start : Db
before_start = record sample { rows = flow ∷ ready_job ∷ [] }

mark_running-within_example :
    Keeps (λ rows. running_on 7 rows ≤ 1) (mark_running ready_job before_start)
mark_running-within_example =
    mark_running-within ready_job before_start 7 builder (omega arith) refl (omega arith)
