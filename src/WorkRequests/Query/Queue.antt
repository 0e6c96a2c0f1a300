-- ===== src/WorkRequests/Query/Queue.antt =====
-- The queue of pending work requests is in the order in which it is served.
use mathlib.Core.List.{Perm}
use debusine.Prelude.Sort.{sort_by, IsOrdered, sort_by-Perm, sort_by-IsOrdered}
use debusine.WorkRequests.Query.Order.{served_before, pending, pending_filter}
use debusine.WorkRequests.Rows.{WorkRequest}
use debusine.WorkRequests.Database.{Db}
use debusine.Prelude.{◌≡◌, Bool, true, false, Option, arith, ℕ, List, filter, some, none, subst}
use debusine.WorkRequests.Monad.{ok, Outcome}

served_before_asym : (a b : WorkRequest) → served_before a b ≡ true → served_before b a ≡ false
served_before_asym a b h = ground arith

served_before_trans :
    (a b c : WorkRequest)
    → served_before b a ≡ false
    → served_before c b ≡ false
    → served_before c a ≡ false
served_before_trans a b c h k = ground arith

sorted :
    (p : WorkRequest → Bool) (rows queue : List WorkRequest)
    → ◌≡◌ {A = Outcome (List WorkRequest)} (ok (sort_by served_before (filter p rows))) (ok queue)
    → IsOrdered served_before queue × Perm queue (filter p rows)
sorted p rows queue e =
    let same : sort_by served_before (filter p rows) ≡ queue = cc in
    subst (λ q. IsOrdered served_before q × Perm q (filter p rows)) same
      (
        sort_by-IsOrdered served_before served_before_asym served_before_trans (filter p rows),
        sort_by-Perm served_before (filter p rows),
      )

-- The queue holds the pending work requests that the filter keeps, each once, by descending effective
-- priority and then by age: nothing in it is to be served before what stands ahead of it.
pub pending-IsOrdered :
    (db : Db) (exclude_assigned : Bool) (worker : Option ℕ) (queue : List WorkRequest)
    → pending db exclude_assigned worker ≡ ok queue
    → IsOrdered served_before queue
      × Perm queue (filter (pending_filter exclude_assigned worker) db.rows)
unfolding pending
pending-IsOrdered db true (some k) queue e = absurd (cc)
pending-IsOrdered db true none queue e = sorted (pending_filter true none) db.rows queue e
pending-IsOrdered db false none queue e = sorted (pending_filter false none) db.rows queue e
pending-IsOrdered db false (some k) queue e = sorted (pending_filter false (some k)) db.rows queue e
