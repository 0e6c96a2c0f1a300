-- ===== src/Scheduling/Internal.antt =====
-- `schedule_internal` and `schedule` of debusine/server/scheduler.py.
use debusine.Prelude.{
  ℕ, Bool, true, false, ◌&&◌, not, Option, some, none, List, [], ◌∷◌, ◌++◌, filter, any, is_key,
  if◌then◌else◌, str_eq, map,
}
use debusine.WorkRequests.{
  WorkRequest, Worker, Db, M, Outcome, ok, and_then, pure, throw, modify, hooked, Hook, TaskTypes,
  Results, is_pending, assertion_error, ◌>>=◌, ◌>>◌,
}
use debusine.Prelude.Closure.{member}
use debusine.WorkRequests.Workflow.{get_workflow_root}
use debusine.Lifecycle.{mark_completed, mark_running}
use debusine.Lifecycle.Reactions.{Reactions}
use debusine.Scheduling.External.{Environment}
use debusine.Scheduling.Workers.{waiting_for_work_request}
use debusine.Scheduling.Assign.{schedule_for_worker}
use debusine.Scheduling.Delays.{complete_delay_tasks}

-- The branches of `match (task_type, task_name)`.
pub data InternalTask : Type 0 where
  synchronization_point callback workflow wait unexpected : InternalTask

abbrev by_name : WorkRequest → InternalTask
by_name w =
    if str_eq w.task_name "synchronization_point"
    then InternalTask.synchronization_point
    else if str_eq w.task_name "workflow"
    then InternalTask.callback
    else InternalTask.unexpected

abbrev by_type : TaskTypes → WorkRequest → InternalTask
by_type TaskTypes.internal w = by_name w
by_type TaskTypes.workflow w = InternalTask.workflow
by_type TaskTypes.wait w = InternalTask.wait
by_type _ w = InternalTask.unexpected

abbrev has_key : List ℕ → Option ℕ → Bool
has_key ks none = false
has_key ks (some k) = member k ks

abbrev root_key : Outcome (Option WorkRequest) → Option ℕ
root_key (ok (some r)) = some r.id
root_key _ = none

-- `workflow_root_id`.
unfoldable pub workflow_root_id : Db → WorkRequest → Option ℕ
unfolding get_workflow_root
workflow_root_id db w = root_key (get_workflow_root db w)

-- The two foreign keys are equal and set, as SQL compares them.
abbrev is_sibling : Option ℕ → WorkRequest → Bool
is_sibling none r = false
is_sibling (some p) r = is_key r.parent p

-- The filter and the two `exclude`s. `in_progress` holds the first arguments of the Celery tasks
-- `run_workflow_task` that are in progress.
abbrev is_due : List ℕ → Db → WorkRequest → InternalTask → Bool
is_due in_progress db w InternalTask.unexpected = false
is_due in_progress db w InternalTask.callback =
    not (any (λ r. is_sibling w.parent r && member r.id in_progress) db.rows)
is_due in_progress db w InternalTask.workflow = not (has_key in_progress (workflow_root_id db w))
is_due in_progress db w _ = true

-- A row of the query, with the annotation that is computed when the query runs.
abbrev due : List ℕ → Db → List (WorkRequest × Option ℕ)
due in_progress db =
    map (λ w. (w, workflow_root_id db w))
      (filter (λ w. is_pending w.status && is_due in_progress db w (by_type w.task_type w)) db.rows)

-- What the loop collects: `running_workflow_callback_parents`, `workflow_root_ids` and `result`.
pub record Collected : Type 0 where
  pub parents : List ℕ
  pub roots : List ℕ
  pub result : List WorkRequest

abbrev collect : WorkRequest → Collected → Collected
collect w c = record c { result = c.result ++ w ∷ [] }

abbrev run_workflow_task_via_celery : WorkRequest → M (Unit {0})
run_workflow_task_via_celery w = modify (hooked (Hook.run_workflow_task w.id))

module _ (reactions : Reactions) where
  -- A callback, by the parent's key.
  abbrev run_callback : Option ℕ → WorkRequest → Collected → M Collected
  run_callback none w c = throw assertion_error
  run_callback (some p) w c = if member p c.parents then pure c else (do
    (w', _) ← mark_running w
    run_workflow_task_via_celery w'
    pure (collect w' (record c { parents = p ∷ c.parents })))

  abbrev note_root : Option ℕ → Collected → M Collected
  note_root none c = throw assertion_error
  note_root (some k) c = pure (record c { roots = k ∷ c.roots })

  abbrev run_internal : InternalTask → WorkRequest × Option ℕ → Collected → M Collected
  run_internal InternalTask.synchronization_point (w, root) c = do
    (w', _) ← mark_completed reactions Results.success none w
    pure (collect w' c)
  run_internal InternalTask.callback (w, root) c = run_callback w.parent w c
  run_internal InternalTask.workflow (w, root) c = note_root root c
  run_internal InternalTask.wait (w, root) c = do (w', _) ← mark_running w; pure (collect w' c)
  run_internal InternalTask.unexpected (w, root) c = throw assertion_error

  abbrev run_each : List (WorkRequest × Option ℕ) → Collected → M Collected
  run_each [] c db = ok (c, db)
  run_each (w ∷ ws) c db = and_then (run_internal (by_type w.0.task_type w.0) w c db) (run_each ws)

  abbrev run_roots : List WorkRequest → List WorkRequest → M (List WorkRequest)
  run_roots [] result db = ok (result, db)
  run_roots (w ∷ ws) result db = and_then (mark_running w db) (λ (w', _) db'.
      and_then (run_workflow_task_via_celery w' db') (λ _. run_roots ws (result ++ w' ∷ [])))

  unfoldable pub schedule_internal : List ℕ → M (List WorkRequest)
  unfolding mark_running mark_completed hooked workflow_root_id
  schedule_internal in_progress db =
      and_then (run_each (due in_progress db) (record { parents = []; roots = []; result = [] }) db)
        (λ c db'. run_roots (filter (λ r. member r.id c.roots) db'.rows) c.result db')

module _ (env : Environment) (reactions : Reactions) where
  abbrev add_assigned : List WorkRequest → Option WorkRequest → List WorkRequest
  add_assigned result none = result
  add_assigned result (some w) = result ++ w ∷ []

  abbrev schedule_workers : List Worker → List WorkRequest → M (List WorkRequest)
  schedule_workers [] result db = ok (result, db)
  schedule_workers (v ∷ vs) result db =
      and_then (schedule_for_worker env reactions v db)
        (λ o. schedule_workers vs (add_assigned result o))

  -- The query for the workers runs when the loop starts.
  unfoldable pub schedule : List ℕ → M (List WorkRequest)
  unfolding schedule_internal waiting_for_work_request schedule_for_worker complete_delay_tasks
  schedule in_progress db = and_then (schedule_internal reactions in_progress db) (λ internal db1.
      and_then (schedule_workers (waiting_for_work_request db1) internal db1)
        (λ result db2. and_then (complete_delay_tasks env reactions db2) (λ _. pure result)))
