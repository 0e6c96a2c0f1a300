-- ===== src/Samples.antt =====
-- A small database for the tests and examples: a running workflow with a running task and two tasks
-- that wait for it, one after the other.
use Prim.Native.Nat.{ℕ}
use debusine.WorkRequests.{
  WorkflowData, WorkRequest, Worker, Db, TaskTypes, WorkerType, Statuses, Results, UnblockStrategy,
}
use debusine.Prelude.{ℕ, false, ◌∷◌, none, some, [], true, Option}
use debusine.Prelude.Int.{pos}
use debusine.Prelude.Decimal.{codes}

abbrev pub plain_data : WorkflowData
plain_data = record {
  allow_failure = false;
  needs_input = none;
  retry_count = 0;
  visible = true;
  step = none;
  manual_unblock = [];
}

abbrev pub row : ℕ → TaskTypes → Statuses → Option ℕ → WorkRequest
row id task_type status parent = record {
  id = id;
  workspace = 1;
  created_at = id;
  started_at = none;
  completed_at = none;
  created_by = 1;
  aborted_by = none;
  status = status;
  workflows_need_update = false;
  result = Results.no_result;
  worker = none;
  task_type = task_type;
  task_name = "noop";
  priority_base = pos 0;
  priority_adjustment = pos 0;
  output_data = none;
  unblock_strategy = UnblockStrategy.deps;
  parent = parent;
  workflow_data = plain_data;
  internal_collection = none;
  expiration_delay = none;
  supersedes = none;
}

abbrev pub flow : WorkRequest
flow = row 1 TaskTypes.workflow Statuses.running none

abbrev pub job : WorkRequest
job = record (row 2 TaskTypes.worker Statuses.running (some 1)) { worker = some 7 }

abbrev pub follower : WorkRequest
follower = row 3 TaskTypes.worker Statuses.blocked (some 1)

abbrev pub last : WorkRequest
last = row 4 TaskTypes.worker Statuses.blocked (some 1)

abbrev pub builder : Worker
builder = record {
  id = 7;
  name = codes "builder";
  worker_type = WorkerType.external;
  concurrency = 1;
  connected_at = some 5;
  token_enabled = true;
  worker_pool = none;
  instance_created_at = none;
}

abbrev pub sample : Db
sample = record {
  rows = flow ∷ job ∷ follower ∷ last ∷ [];
  depends = (3, 2) ∷ (4, 3) ∷ [];
  workers = builder ∷ [];
  now = 100;
  hooks = [];
  log = [];
}
