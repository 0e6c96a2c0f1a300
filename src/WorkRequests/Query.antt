-- ===== src/WorkRequests/Query.antt =====
-- WorkRequestQuerySet and the properties of a work request that are queries:
-- debusine/db/models/work_requests.py. A queryset is the list of its rows.
mod Order
pub mod Queue
unfoldable pub use Order.*
use debusine.Prelude.{
  ℕ, Bool, true, false, not, ◌&&◌, ◌||◌, Option, none, some, List, [], ◌∷◌, ◌==◌, if◌then◌else◌,
  filter, any, count, is_none, is_key,
}
use debusine.WorkRequests.Types.{
  is_pending, is_running, is_completed, is_aborted, is_blocked, is_terminated, is_deps, is_success,
  is_failure, is_workflow_type, Statuses,
}
use debusine.WorkRequests.Rows.{WorkRequest, Worker}
use debusine.WorkRequests.Database.{Db, find}

-- There is a row of the many-to-many table from `w` to `dependency`.
abbrev pub depends_on : List (ℕ × ℕ) → ℕ → ℕ → Bool
depends_on [] w dependency = false
depends_on ((a, b) ∷ ds) w dependency = (a == w && b == dependency) || depends_on ds w dependency

abbrev pub parent_is_running : Db → WorkRequest → Bool
parent_is_running db w = any (λ r. is_key w.parent r.id && is_running r.status) db.rows

-- The filter of WorkRequestQuerySet.can_be_unblocked, for one row.
unfoldable pub can_be_unblocked : Db → WorkRequest → Bool
can_be_unblocked db w = is_blocked w.status && (is_none w.parent || parent_is_running db w)

-- A row that `w` depends on and that has not completed.
abbrev pub is_unmet : Db → ℕ → WorkRequest → Bool
is_unmet db k r = depends_on db.depends k r.id && not (is_completed r.status)

unfoldable pub can_be_automatically_unblocked : Db → WorkRequest → Bool
can_be_automatically_unblocked db w =
    can_be_unblocked db w && (is_deps w.unblock_strategy && not (any (is_unmet db w.id) db.rows))

unfoldable pub reverse_dependencies : Db → WorkRequest → List WorkRequest
reverse_dependencies db w = filter (λ r. depends_on db.depends r.id w.id) db.rows

unfoldable pub dependencies : Db → WorkRequest → List WorkRequest
dependencies db w = filter (λ r. depends_on db.depends w.id r.id) db.rows

unfoldable pub children : Db → WorkRequest → List WorkRequest
children db w = filter (λ r. is_key r.parent w.id) db.rows

-- The reverse of the one-to-one field `supersedes`: `hasattr(self, "superseded")`.
unfoldable pub superseded : Db → WorkRequest → Bool
superseded db w = any (λ r. is_key r.supersedes w.id) db.rows

unfoldable pub running : Db → Option ℕ → List WorkRequest
running db none = filter (λ r. is_running r.status) db.rows
running db (some k) = filter (λ r. is_running r.status && is_key r.worker k) db.rows

abbrev pub is_aborted_failed : WorkRequest → Bool
is_aborted_failed w = is_aborted w.status || (is_completed w.status && is_failure w.result)

-- A child that is neither completed nor aborted.
unfoldable pub has_children_in_progress : Db → WorkRequest → Bool
has_children_in_progress db w =
    any (λ r. is_key r.parent w.id && not (is_terminated r.status)) db.rows

-- An unsuperseded child that has not completed.
unfoldable pub has_incomplete_child : Db → WorkRequest → Bool
unfolding superseded
has_incomplete_child db w =
    any (λ r. is_key r.parent w.id && (not (superseded db r) && not (is_completed r.status)))
      db.rows

-- An unsuperseded child that neither succeeded nor is allowed to fail.
unfoldable pub has_failed_child : Db → WorkRequest → Bool
unfolding superseded
has_failed_child db w =
    any
      (λ r.
        is_key r.parent w.id
        && (not (superseded db r) && not (is_success r.result || r.workflow_data.allow_failure)))
      db.rows
