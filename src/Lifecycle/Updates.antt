-- ===== src/Lifecycle/Updates.antt =====
-- The status changes that end where they start: `mark_running`, `mark_pending`, `de_assign_worker`,
-- `schedule_workflow_update`. A method returns the instance as it leaves it, and its result.
use debusine.WorkRequests.Query.{running}
use debusine.WorkRequests.{
  stored, Db, WorkRequest, Outcome, hooked, M, ok, pure, Statuses, needs_worker, is_blocked,
  is_running, save, raise, ◌>>◌, throw, is_pending, modify, Hook, find_worker, does_not_exist,
  ◌>>=◌, fetch_parent, EventName, Worker,
}
use debusine.Lifecycle.Reactions.{Reactions}
use debusine.Prelude.{
  Bool, Option, some, if◌then◌else◌, not, true, false, ◌&&◌, is_none, ◌||◌, none, leb, length, ℕ,
}

-- Mark the containing workflows for an update, once a commit. `parent` is `self.parent`.
unfoldable pub schedule_workflow_update : Option WorkRequest → WorkRequest → M WorkRequest
unfolding stored hooked
schedule_workflow_update none self = pure self
schedule_workflow_update (some _) self =
    let marked = record self { workflows_need_update = true } in
    save marked >> modify (hooked Hook.update_workflows) >> pure marked

-- `self.worker` runs as many work requests as it may. A worker that is not there cannot be: the
-- column is a foreign key.
abbrev pub at_limit : Option Worker → ℕ → Outcome Bool
at_limit none n = raise does_not_exist
at_limit (some w) n = ok (leb w.concurrency n)

unfoldable pub is_busy : Option ℕ → Db → Outcome Bool
unfolding running
is_busy none db = ok false
is_busy (some k) db = at_limit (find_worker k db.workers) (length (running db (some k)))

unfoldable pub runs_too_many : Db → WorkRequest → Outcome Bool
unfolding is_busy
runs_too_many db self = is_busy self.worker db

unfoldable pub start : WorkRequest → M (WorkRequest × Bool)
unfolding schedule_workflow_update
start self db =
    let started = record self { started_at = some db.now; status = Statuses.running } in
    (do
      save started
      parent ← fetch_parent started
      self' ← schedule_workflow_update parent started
      pure (self', true))
      db

unfoldable pub start_unless : Outcome Bool → WorkRequest → M (WorkRequest × Bool)
unfolding start
start_unless (ok true) self = pure (self, false)
start_unless (ok false) self = start self
start_unless (raise e) self = throw e

unfoldable pub mark_running : WorkRequest → M (WorkRequest × Bool)
unfolding start_unless runs_too_many
mark_running self db =
    if needs_worker self.task_type && is_none self.worker
    then ok ((self, false), db)
    else if is_running self.status
    then ok ((self, true), db)
    else if not (is_pending self.status)
    then ok ((self, false), db)
    else start_unless (runs_too_many db self) self db

module _ (reactions : Reactions) where
  -- The body of `mark_pending` behind its guard.
  unfoldable pub release : WorkRequest → M (WorkRequest × Bool)
  unfolding schedule_workflow_update
  release self =
      let ready = record self { status = Statuses.pending } in
      do
        save ready
        parent ← fetch_parent ready
        self' ← schedule_workflow_update parent ready
        reactions.react EventName.on_unblock self'
        pure (self', true)

  unfoldable pub mark_pending : WorkRequest → M (WorkRequest × Bool)
  unfolding release
  mark_pending self = if not (is_blocked self.status) then pure (self, false) else release self

unfoldable pub de_assign_worker : WorkRequest → M (WorkRequest × Bool)
unfolding stored
de_assign_worker self =
    if not (is_running self.status || is_pending self.status)
    then pure (self, false)
    else let free = record self { worker = none; started_at = none; status = Statuses.pending } in
      save free >> pure (free, true)
