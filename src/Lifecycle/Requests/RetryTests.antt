-- ===== src/Lifecycle/Requests/RetryTests.antt =====
-- A retry on a small database, and its theorem at it.
use debusine.Lifecycle.Reactions.{recorded}
use debusine.Lifecycle.Requests.Abort.{OnOk}
use debusine.WorkRequests.Query.{can_be_unblocked}
use debusine.Lifecycle.Requests.Retry.{retry}
use debusine.Lifecycle.Requests.Successor.{IsSuccessor, retry-IsSuccessor}
use debusine.Prelude.{ℕ, List, [], ◌∷◌, ◌≡◌, some, true, refl, map}
use debusine.Samples.{sample, flow, row}
use debusine.WorkRequests.{
  WorkRequest, Db, M, Outcome, ok, raise, throw, task_config_error, Statuses, TaskTypes,
  RetryReason,
}

abbrev stopped_job : WorkRequest
stopped_job = row 2 TaskTypes.worker Statuses.aborted (some 1)

-- The stopped task, and a task that waits for it.
abbrev stopped : Db
stopped = record sample {
  rows = flow ∷ stopped_job ∷ row 3 TaskTypes.worker Statuses.pending (some 1) ∷ [];
  depends = (3, 2) ∷ [];
}

abbrev no_workflow : RetryReason → WorkRequest → M WorkRequest
no_workflow reason self = throw task_config_error

state_after : Outcome (WorkRequest × Db) → List Statuses × List (ℕ × ℕ)
state_after (ok (w, db)) = (map (λ r. r.status) db.rows, db.depends)
state_after (raise e) = ([], [])

-- The new work request is pending, and the one that waited is blocked and waits for the new one.
retry_replaces :
    state_after (retry recorded no_workflow true true RetryReason.worker_failed stopped_job stopped)
    ≡ (Statuses.running ∷ Statuses.aborted ∷ Statuses.blocked ∷ Statuses.pending ∷ [], (3, 4) ∷ [])
unfolding retry state_after can_be_unblocked
retry_replaces = refl

retry-IsSuccessor_example :
    OnOk
      (IsSuccessor RetryReason.worker_failed stopped_job)
      (retry recorded no_workflow true true RetryReason.worker_failed stopped_job stopped)
retry-IsSuccessor_example =
    retry-IsSuccessor recorded no_workflow true true RetryReason.worker_failed stopped_job stopped
      refl
