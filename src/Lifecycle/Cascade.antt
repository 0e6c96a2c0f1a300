-- ===== src/Lifecycle/Cascade.antt =====
-- `mark_completed` and `mark_aborted`, which release or abort what depends on the work request and
-- finish the workflow that contains it, and so call one another. A call made by another one goes
-- through `Calls`; `cascade` closes the recursion, to a depth that Lifecycle/Termination.antt shows
-- to be enough.
use debusine.WorkRequests.Query.{
  can_be_automatically_unblocked, reverse_dependencies, has_children_in_progress,
  has_incomplete_child, has_failed_child,
}
use debusine.Lifecycle.Reactions.{Reactions}
use debusine.Lifecycle.Updates.{schedule_workflow_update, mark_pending}
use Prim.Native.Nat.{ℕ, suc}
use debusine.Prelude.{
  Option, List, some, Bool, count, if◌then◌else◌, not, ◌||◌, false, filter, none, true, zero,
}
use debusine.WorkRequests.{
  logged, Results, WorkRequest, Db, throw, M, OutputData, out_of_fuel, merge, Statuses, is_success,
  pure, EventName, for_each, is_workflow_type, ok, assertion_error, is_pending, is_terminated,
  is_running, find_worker, is_blocked, ◌>>◌, save, does_not_exist, Effect, unset, ◌>>=◌, given,
  fetch_parent, modify, Worker,
}

pub record Calls : Type 0 where
  pub mark_aborted : (user : Option ℕ) → WorkRequest → M (WorkRequest × Bool)
  pub mark_completed : Results → Option OutputData → WorkRequest → M (WorkRequest × Bool)

abbrev merge_output : Option OutputData → Option OutputData → Option OutputData
merge_output old none = old
merge_output none (some new) = some new
merge_output (some old) (some new) = some (merge old new)

abbrev pub known_duration : Option OutputData → Option ℕ
known_duration none = none
known_duration (some output) = elim output.runtime_statistics [
  | unset ↦ none
  | given none ↦ none
  | given (some s) ↦ s.duration
]

abbrev pub pool_statistics : Option ℕ → (worker duration : ℕ) → WorkRequest → M (Unit {0})
pool_statistics none k d self = pure tt
pool_statistics (some pool) k d self = modify (logged (Effect.statistics pool k self.workspace d))

abbrev pub worker_statistics : Option Worker → (duration : ℕ) → WorkRequest → M (Unit {0})
worker_statistics none d self = throw does_not_exist
worker_statistics (some w) d self = pool_statistics w.worker_pool w.id d self

abbrev pub statistics_of : Option ℕ → Option ℕ → WorkRequest → M (Unit {0})
statistics_of none worker self = pure tt
statistics_of (some d) none self = pure tt
statistics_of (some d) (some k) self = λ db. worker_statistics (find_worker k db.workers) d self db

-- The row of WorkerPoolTaskExecutionStatistics that a finished task of a pool's worker leaves.
unfoldable pub record_statistics : Option OutputData → WorkRequest → M (Unit {0})
unfolding logged
record_statistics output self = statistics_of (known_duration output) self.worker self

unfoldable pub finished : Results → Option OutputData → ℕ → WorkRequest → WorkRequest
finished result output now self = record self {
  result = result;
  completed_at = some now;
  status = Statuses.completed;
  output_data = merge_output self.output_data output;
}

unfoldable pub aborted : Option ℕ → ℕ → WorkRequest → WorkRequest
aborted user now self = record self {
  aborted_by = user;
  completed_at = some now;
  status = Statuses.aborted;
}

-- The result releases what depends on the work request.
abbrev pub releases : WorkRequest → Bool
releases self = is_success self.result || self.workflow_data.allow_failure

abbrev pub in_progress : Db → WorkRequest → Bool
in_progress db self =
    not (is_workflow_type self.task_type)
    || (not (is_running self.status) || has_children_in_progress db self)

module _ (calls : Calls) where
  unfoldable pub maybe_finish_workflow : WorkRequest → M Bool
  unfolding has_children_in_progress has_incomplete_child has_failed_child
  maybe_finish_workflow self db =
      if in_progress db self
      then ok (false, db)
      else if has_incomplete_child db self
      then (calls.mark_aborted none self >> pure true) db
      else if has_failed_child db self
      then (calls.mark_completed Results.failure none self >> pure true) db
      else (calls.mark_completed Results.success none self >> pure true) db

  abbrev pub finish_parent : Option WorkRequest → M Bool
  finish_parent none = pure false
  finish_parent (some parent) = maybe_finish_workflow parent

module _ (reactions : Reactions) where
  -- The `match self.result`.
  abbrev pub react_to_result : Results → WorkRequest → M (Unit {0})
  react_to_result Results.success self = reactions.react EventName.on_success self
  react_to_result Results.failure self = reactions.react EventName.on_failure self
  react_to_result Results.error self = reactions.react EventName.on_failure self
  react_to_result Results.skipped self = pure tt
  react_to_result Results.no_result self = throw assertion_error

module _ (reactions : Reactions) (calls : Calls) where
  unfoldable pub unblock_reverse_dependencies : WorkRequest → M (Unit {0})
  unfolding reverse_dependencies can_be_automatically_unblocked
  unblock_reverse_dependencies self db =
      if releases self
      then for_each (filter (can_be_automatically_unblocked db) (reverse_dependencies db self))
          (mark_pending reactions) db
      else for_each (filter (λ r. is_blocked r.status) (reverse_dependencies db self))
          (calls.mark_aborted none) db

  -- `mark_completed` from its first use of `self.parent` on. The parent is read before the reverse
  -- dependencies are unblocked, and the same instance is used at the end.
  unfoldable pub after_complete : WorkRequest → M (WorkRequest × Bool)
  unfolding schedule_workflow_update unblock_reverse_dependencies maybe_finish_workflow
  after_complete done = do
    parent ← fetch_parent done
    self' ← schedule_workflow_update parent done
    unblock_reverse_dependencies self'
    react_to_result reactions self'.result self'
    finish_parent calls parent
    pure (self', true)

  -- The body of `mark_completed` behind its guards.
  unfoldable pub complete : Results → Option OutputData → WorkRequest → M (WorkRequest × Bool)
  unfolding finished record_statistics after_complete
  complete result output self db =
      let done = finished result output db.now self in
      (do save done; record_statistics output done; after_complete done) db

  -- The test of the result, `result == NONE`.
  abbrev pub complete_unless_none :
      Results → Option OutputData → WorkRequest → M (WorkRequest × Bool)
  complete_unless_none Results.no_result output self = throw assertion_error
  complete_unless_none Results.success output self = complete Results.success output self
  complete_unless_none Results.failure output self = complete Results.failure output self
  complete_unless_none Results.error output self = complete Results.error output self
  complete_unless_none Results.skipped output self = complete Results.skipped output self

  unfoldable pub mark_completed_step :
      Results → Option OutputData → WorkRequest → M (WorkRequest × Bool)
  unfolding complete
  mark_completed_step result output self =
      if not (is_pending self.status || is_running self.status)
      then pure (self, false)
      else complete_unless_none result output self

  -- `mark_aborted` behind its first write.
  unfoldable pub after_abort : WorkRequest → M (WorkRequest × Bool)
  unfolding schedule_workflow_update unblock_reverse_dependencies maybe_finish_workflow
  after_abort stopped = do
    unblock_reverse_dependencies stopped
    parent ← fetch_parent stopped
    finish_parent calls parent
    self' ← schedule_workflow_update parent stopped
    pure (self', true)

  unfoldable pub mark_aborted_step : Option ℕ → WorkRequest → M (WorkRequest × Bool)
  unfolding aborted after_abort
  mark_aborted_step user self db =
      let stopped = aborted user db.now self in (save stopped >> after_abort stopped) db

module _ (reactions : Reactions) where
  -- The two methods, with at most `depth` calls inside one another.
  unfoldable pub cascade : ℕ → Calls
  unfolding mark_aborted_step mark_completed_step
  cascade zero = record {
    mark_aborted = λ user self. throw out_of_fuel;
    mark_completed = λ result output self. throw out_of_fuel;
  }
  cascade (suc depth) = record {
    mark_aborted = mark_aborted_step reactions (cascade depth);
    mark_completed = mark_completed_step reactions (cascade depth);
  }

  -- The number of work requests that have not terminated bounds the depth.
  abbrev pub live : List WorkRequest → ℕ
  live rows = count (λ r. not (is_terminated r.status)) rows

  unfoldable pub mark_aborted : Option ℕ → WorkRequest → M (WorkRequest × Bool)
  unfolding cascade
  mark_aborted user self db = (cascade (suc (live db.rows))).mark_aborted user self db

  unfoldable pub mark_completed : Results → Option OutputData → WorkRequest → M (WorkRequest × Bool)
  unfolding cascade
  mark_completed result output self db =
      (cascade (suc (live db.rows))).mark_completed result output self db
