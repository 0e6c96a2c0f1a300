-- ===== src/WorkRequests/Query/Order.antt =====
-- `WorkRequestQuerySet.pending`: the queue in which pending work requests are served.
use debusine.Prelude.{
  ℕ, Bool, true, not, ◌&&◌, ◌||◌, Option, none, some, List, filter, is_none, is_key, ltb,
}
use debusine.Prelude.Int.{ltb_ℤ}
use debusine.Prelude.Sort.{sort_by}
use debusine.WorkRequests.Types.{is_pending}
use debusine.WorkRequests.Rows.{WorkRequest, priority_effective}
use debusine.WorkRequests.Database.{Db}
use debusine.WorkRequests.Monad.{Outcome, ok, raise, value_error}

-- Descending effective priority, then `created_at`.
abbrev pub served_before : WorkRequest → WorkRequest → Bool
served_before a b =
    ltb_ℤ (priority_effective b) (priority_effective a)
    || (not (ltb_ℤ (priority_effective a) (priority_effective b)) && ltb a.created_at b.created_at)

abbrev pub pending_filter : Bool → Option ℕ → WorkRequest → Bool
pending_filter exclude_assigned none r =
    is_pending r.status && (not exclude_assigned || is_none r.worker)
pending_filter exclude_assigned (some k) r =
    is_pending r.status && ((not exclude_assigned || is_none r.worker) && is_key r.worker k)

unfoldable pub pending : Db → Bool → Option ℕ → Outcome (List WorkRequest)
unfolding sort_by
pending db true (some k) = raise value_error
pending db exclude_assigned worker =
    ok (sort_by served_before (filter (pending_filter exclude_assigned worker) db.rows))
