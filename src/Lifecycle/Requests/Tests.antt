-- ===== src/Lifecycle/Requests/Tests.antt =====
-- Requests on the sample database.
use debusine.WorkRequests.Query.{superseded}
use debusine.Lifecycle.Requests.Abort.{abort_targets, abort, abort-Ends, IsTarget}
use debusine.WorkRequests.{
  WorkRequest, Db, Keeps, Statuses, stored, TaskTypes, raise, ok, cannot_abort,
}
use debusine.Lifecycle.Requests.Unblock.{add_dependency}
use debusine.Samples.{sample, row, flow}
use debusine.Prelude.{◌≡◌, true, All, none, refl, ◌∷◌, [], arith, ◌↔◌}
use debusine.Lifecycle.Advance.{Settles}
use debusine.Lifecycle.Reactions.{recorded, recorded-IsQuiet}
use debusine.Lifecycle.Live.{Ends, IsRow}

abort-Ends_example :
    (IsRow (abort_targets sample flow) flow ↔ IsTarget sample flow flow)
    × Keeps
        (λ rows. Settles sample.rows rows × All (λ r. Ends r.id rows) (abort_targets sample flow))
        (abort recorded 1 true flow sample)
unfolding superseded
abort-Ends_example = abort-Ends recorded-IsQuiet 1 flow flow sample (omega arith) refl refl

-- The whole workflow is below its root.
abort_targets_all : abort_targets sample flow ≡ sample.rows
unfolding abort_targets
abort_targets_all = refl

abort-superseded :
    (db : Db) (self : WorkRequest)
    → superseded db self ≡ true
    → abort recorded 1 true self db ≡ raise cannot_abort
unfolding abort
abort-superseded db self h = rw h refl

abbrev waiting_job : WorkRequest
waiting_job = row 3 TaskTypes.worker Statuses.pending none

abbrev parted : Db
parted = record sample {
  rows = row 2 TaskTypes.worker Statuses.running none ∷ waiting_job ∷ [];
  depends = [];
}

abbrev held_back : WorkRequest
held_back = record waiting_job { status = Statuses.blocked }

add_dependency_runs :
    add_dependency waiting_job (row 2 TaskTypes.worker Statuses.running none) parted
    ≡ ok (held_back, stored held_back (record parted { depends = (3, 2) ∷ [] }))
unfolding add_dependency stored
add_dependency_runs = refl
