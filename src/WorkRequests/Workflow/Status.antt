-- ===== src/WorkRequests/Workflow/Status.antt =====
-- The status that is shown for a workflow.
use debusine.WorkRequests.Workflow.Defs.{runtime_status, waits_for_input, works, waits}
use debusine.WorkRequests.Rows.{WorkRequest}
use debusine.Prelude.{
  List, All, ◌≡◌, any, true, false, ◌≢◌, none, not, ◌∷◌, [], refl, Bool, arith, ◌↔◌, if◌then◌else◌,
  ◌||◌,
}
use debusine.WorkRequests.Types.{
  is_wait_type, RuntimeStatuses, is_pending, is_blocked, is_aborted, is_completed,
}
use debusine.WorkRequests.Monad.{ok, raise, assertion_error}

-- `clean` demands `needs_input` of every WAIT task.
abbrev pub KnowsInput : WorkRequest → Type 0
KnowsInput r = is_wait_type r.task_type ≡ true → r.workflow_data.needs_input ≢ none

ladder :
    (a b c d e f g : Bool)
    → (a ≡ false → b ≡ false → c ≡ false → d ≡ false → e ≡ false → f ≡ false → g ≡ false)
    → (s : RuntimeStatuses) × ((if a
          then ok RuntimeStatuses.needs_input
          else if b
          then ok RuntimeStatuses.running
          else if c
          then ok RuntimeStatuses.waiting
          else if d
          then ok RuntimeStatuses.pending
          else if e
          then ok RuntimeStatuses.blocked
          else if f
          then ok RuntimeStatuses.aborted
          else if not g
          then ok RuntimeStatuses.completed
          else raise assertion_error)
        ≡ ok s)
ladder true b c d e f g h = (RuntimeStatuses.needs_input, refl)
ladder false true c d e f g h = (RuntimeStatuses.running, refl)
ladder false false true d e f g h = (RuntimeStatuses.waiting, refl)
ladder false false false true e f g h = (RuntimeStatuses.pending, refl)
ladder false false false false true f g h = (RuntimeStatuses.blocked, refl)
ladder false false false false false true g h = (RuntimeStatuses.aborted, refl)
ladder false false false false false false g h =
    (RuntimeStatuses.completed, rw (h refl refl refl refl refl refl) refl)

or-false : (a b : Bool) → (a || b) ≡ false → (a ≡ false) × (b ≡ false)
or-false a b h = ground arith

-- A row that no test of the ladder meets has completed.
completed_row :
    (r : WorkRequest)
    → KnowsInput r
    → waits_for_input r ≡ false
    → works r ≡ false
    → waits r ≡ false
    → is_pending r.status ≡ false
    → is_blocked r.status ≡ false
    → is_aborted r.status ≡ false
    → is_completed r.status ≡ true
completed_row r k a b c d e f = ground (arith)

rows_completed :
    (rows : List WorkRequest)
    → All KnowsInput rows
    → any waits_for_input rows ≡ false
    → any works rows ≡ false
    → any waits rows ≡ false
    → any (λ r. is_pending r.status) rows ≡ false
    → any (λ r. is_blocked r.status) rows ≡ false
    → any (λ r. is_aborted r.status) rows ≡ false
    → any (λ r. not (is_completed r.status)) rows ≡ false
rows_completed [] k a b c d e f = refl
rows_completed (r ∷ rs) k a b c d e f =
    let (a0, a1) = or-false (waits_for_input r) (any waits_for_input rs) a in
    let (b0, b1) = or-false (works r) (any works rs) b in
    let (c0, c1) = or-false (waits r) (any waits rs) c in
    let (d0, d1) = or-false (is_pending r.status) (any (λ r. is_pending r.status) rs) d in
    let (e0, e1) = or-false (is_blocked r.status) (any (λ r. is_blocked r.status) rs) e in
    let (f0, f1) = or-false (is_aborted r.status) (any (λ r. is_aborted r.status) rs) f in
    rw (completed_row r k.0 a0 b0 c0 d0 e0 f0) (rows_completed rs k.1 a1 b1 c1 d1 e1 f1)

-- A runtime status is always found, if every WAIT task among the rows says whether it needs input.
pub runtime_status_total :
    (rows : List WorkRequest)
    → All KnowsInput rows
    → (s : RuntimeStatuses) × (runtime_status rows ≡ ok s)
unfolding runtime_status
runtime_status_total rows k =
    ladder (any waits_for_input rows) (any works rows) (any waits rows)
      (any (λ r. is_pending r.status) rows) (any (λ r. is_blocked r.status) rows)
      (any (λ r. is_aborted r.status) rows) (any (λ r. not (is_completed r.status)) rows)
      (rows_completed rows k)

-- Where nothing is left to complete, nothing has another status.
none_other :
    (rows : List WorkRequest)
    → any (λ r. not (is_completed r.status)) rows ≡ false
    → (any waits_for_input rows ≡ false)
      × (any works rows ≡ false)
      × (any waits rows ≡ false)
      × (any (λ r. is_pending r.status) rows ≡ false)
      × (any (λ r. is_blocked r.status) rows ≡ false)
      × (any (λ r. is_aborted r.status) rows ≡ false)
none_other [] h = (refl, refl, refl, refl, refl, refl)
none_other (r ∷ rs) h =
    let (h0, h1) =
      or-false (not (is_completed r.status)) (any (λ r. not (is_completed r.status)) rs) h in
    let (a, b, c, d, e, f) = none_other rs h1 in ground arith

-- The workflow is shown as completed exactly when no row that it runs has a status other than
-- COMPLETED.
pub runtime_status-completed :
    (rows : List WorkRequest)
    → (runtime_status rows ≡ ok RuntimeStatuses.completed)
      ↔ (any (λ r. not (is_completed r.status)) rows ≡ false)
unfolding runtime_status
runtime_status-completed rows = (λ h. ground arith, λ h. ground (arith, none_other rows h))
