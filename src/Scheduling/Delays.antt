-- ===== src/Scheduling/Delays.antt =====
-- `complete_delay_tasks` of debusine/server/scheduler.py.
use debusine.Prelude.{ℕ, Bool, true, ◌&&◌, not, Option, some, none, List, filter, str_eq, ltb}
use debusine.WorkRequests.{WorkRequest, Db, M, for_each, Results, is_wait_type}
use debusine.WorkRequests.Query.{running}
use debusine.Lifecycle.{mark_completed}
use debusine.Lifecycle.Reactions.{Reactions}
use debusine.Scheduling.External.{Environment}

-- `exclude(delay_until__gt=now)` keeps a row without `delay_until`.
abbrev pub has_expired : ℕ → Option ℕ → Bool
has_expired now none = true
has_expired now (some until) = not (ltb now until)

module _ (env : Environment) where
  unfoldable pub expired_delays : Db → List WorkRequest
  unfolding running
  expired_delays db =
      filter
        (λ r.
          (is_wait_type r.task_type && str_eq r.task_name "delay")
          && has_expired db.now (env.delay_until r))
        (running db none)

  unfoldable pub complete_delay_tasks : Reactions → M (Unit {0})
  unfolding expired_delays for_each mark_completed
  complete_delay_tasks reactions db =
      for_each (expired_delays db) (mark_completed reactions Results.success none) db
