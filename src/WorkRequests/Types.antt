-- ===== src/WorkRequests/Types.antt =====
-- The choices of a work request's columns: debusine/artifacts/models.py, and the TextChoices of
-- debusine/db/models/work_requests.py.
use debusine.Prelude.{Bool, true, false}

pub data TaskTypes : Type 0 where
  worker server internal workflow signing wait : TaskTypes

pub data Statuses : Type 0 where
  pending running completed aborted blocked : Statuses

-- `no_result` is the source's NONE.
pub data Results : Type 0 where
  no_result success failure error skipped : Results

pub data UnblockStrategy : Type 0 where
  deps manual : UnblockStrategy

pub data RuntimeStatuses : Type 0 where
  needs_input running waiting pending aborted completed blocked : RuntimeStatuses

pub data RetryReason : Type 0 where
  worker_failed delay manual : RetryReason

-- The `event_name` of `process_event_reactions`.
pub data EventName : Type 0 where
  on_creation on_unblock on_assignment on_success on_failure : EventName

-- `status == …`, one test for each status.
abbrev pub is_pending : Statuses → Bool
is_pending Statuses.pending = true
is_pending _ = false

abbrev pub is_running : Statuses → Bool
is_running Statuses.running = true
is_running _ = false

abbrev pub is_completed : Statuses → Bool
is_completed Statuses.completed = true
is_completed _ = false

abbrev pub is_aborted : Statuses → Bool
is_aborted Statuses.aborted = true
is_aborted _ = false

abbrev pub is_blocked : Statuses → Bool
is_blocked Statuses.blocked = true
is_blocked _ = false

-- `status in {COMPLETED, ABORTED}`, the filter of `terminated`.
abbrev pub is_terminated : Statuses → Bool
is_terminated Statuses.completed = true
is_terminated Statuses.aborted = true
is_terminated _ = false

abbrev pub is_workflow_type : TaskTypes → Bool
is_workflow_type TaskTypes.workflow = true
is_workflow_type _ = false

abbrev pub is_wait_type : TaskTypes → Bool
is_wait_type TaskTypes.wait = true
is_wait_type _ = false

-- `task_type in {WORKER, SERVER, SIGNING}`: the tasks that run on a worker.
abbrev pub needs_worker : TaskTypes → Bool
needs_worker TaskTypes.worker = true
needs_worker TaskTypes.server = true
needs_worker TaskTypes.signing = true
needs_worker _ = false

abbrev pub is_deps : UnblockStrategy → Bool
is_deps UnblockStrategy.deps = true
is_deps UnblockStrategy.manual = false

-- `result in {SUCCESS, SKIPPED}`.
abbrev pub is_success : Results → Bool
is_success Results.success = true
is_success Results.skipped = true
is_success _ = false

abbrev pub is_failure : Results → Bool
is_failure Results.failure = true
is_failure _ = false
