-- ===== src/WorkRequests/Workflow/Defs.antt =====
-- The recursive queries over the tree of work requests, and the status shown for a workflow.
use Prim.Native.Nat.{ℕ, suc}
use debusine.Prelude.{
  ℕ, Option, List, Bool, false, not, ◌||◌, filter, none, ◌∷◌, some, ◌&&◌, length, if◌then◌else◌, [],
  any, true, is_none, zero,
}
use debusine.Prelude.Closure.{member, closure}
use debusine.WorkRequests.Database.{Db, find}
use debusine.WorkRequests.Rows.{WorkRequest}
use debusine.WorkRequests.Types.{
  is_wait_type, is_workflow_type, RuntimeStatuses, is_running, is_pending, is_blocked, is_aborted,
  is_completed,
}
use debusine.WorkRequests.Monad.{Outcome, raise, out_of_fuel, ok, assertion_error, does_not_exist}

-- The keys of a work request and of all that is below it. Each round but the last adds a row.
unfoldable pub flattened_keys : List WorkRequest → ℕ → List ℕ
unfolding closure
flattened_keys rows root = closure (λ r. r.parent) (λ r. r.id) (suc (length rows)) rows (root ∷ [])

abbrev is_shown : Bool → Bool → WorkRequest → Bool
is_shown include_workflows include_invisible r =
    (include_workflows || not (is_workflow_type r.task_type))
    && (include_invisible || r.workflow_data.visible)

unfoldable pub workflow_flattened : Db → WorkRequest → Bool → Bool → List WorkRequest
unfolding flattened_keys
workflow_flattened db w include_workflows include_invisible =
    filter
      (λ r.
        member r.id (flattened_keys db.rows w.id) && is_shown include_workflows include_invisible r)
      db.rows

abbrev asks_input : WorkRequest → Bool
asks_input r = elim r.workflow_data.needs_input [ none ↦ false | some b ↦ b ]

abbrev asks_no_input : WorkRequest → Bool
asks_no_input r = elim r.workflow_data.needs_input [ none ↦ false | some b ↦ not b ]

abbrev pub waits_for_input : WorkRequest → Bool
waits_for_input r = is_wait_type r.task_type && (is_running r.status && asks_input r)

abbrev pub waits : WorkRequest → Bool
waits r = is_wait_type r.task_type && (is_running r.status && asks_no_input r)

abbrev pub works : WorkRequest → Bool
works r = not (is_wait_type r.task_type) && is_running r.status

-- The ladder of queries, over the work requests of the workflow.
unfoldable pub runtime_status : List WorkRequest → Outcome RuntimeStatuses
runtime_status flattened =
    if any waits_for_input flattened
    then ok RuntimeStatuses.needs_input
    else if any works flattened
    then ok RuntimeStatuses.running
    else if any waits flattened
    then ok RuntimeStatuses.waiting
    else if any (λ r. is_pending r.status) flattened
    then ok RuntimeStatuses.pending
    else if any (λ r. is_blocked r.status) flattened
    then ok RuntimeStatuses.blocked
    else if any (λ r. is_aborted r.status) flattened
    then ok RuntimeStatuses.aborted
    else if not (any (λ r. not (is_completed r.status)) flattened)
    then ok RuntimeStatuses.completed
    else raise assertion_error

unfoldable pub compute_workflow_runtime_status : Db → WorkRequest → Outcome RuntimeStatuses
unfolding runtime_status workflow_flattened
compute_workflow_runtime_status db w =
    if is_workflow_type w.task_type
    then runtime_status (workflow_flattened db w false true)
    else raise assertion_error

-- The `while parent.parent is not None` loop. Parents are followed at most `steps` times.
unfoldable pub climb : ℕ → List WorkRequest → WorkRequest → Outcome WorkRequest
climb zero rows w = raise out_of_fuel
climb (suc steps) rows w = elim w.parent [
  | none ↦ ok w
  | some p ↦ elim (find p rows) [ none ↦ raise does_not_exist | some r ↦ climb steps rows r ]
]

unfoldable pub get_workflow_root : Db → WorkRequest → Outcome (Option WorkRequest)
unfolding climb
get_workflow_root db w =
    if not (is_workflow_type w.task_type) && is_none w.parent
    then ok none
    else elim (climb (suc w.id) db.rows w) [ ok r ↦ ok (some r) | raise e ↦ raise e ]
