-- ===== src/WorkRequests/Rows.antt =====
-- The rows of the tables: WorkRequest and Worker, with the pydantic structures that their JSON
-- columns hold (WorkRequestWorkflowData, OutputData). A foreign key is the key of the other row.
use debusine.Prelude.{ℕ, Bool, Option, List, String, ◌≡◌, arith}
use debusine.Prelude.Int.{ℤ, ◌+ℤ◌}
use debusine.WorkRequests.Types.{TaskTypes, Statuses, Results, UnblockStrategy}
use debusine.Prelude.Decimal.{Text}

-- A pydantic field with its place in `__fields_set__`.
pub data Field (A : Type 0) : Type 0 where
  unset : Field A
  given : Option A → Field A

pub record OutputDataError : Type 0 where
  pub message : String
  pub code : String

-- Of RuntimeStatistics only the duration is read by the server's models.
pub record RuntimeStatistics : Type 0 where
  pub duration : Option ℕ

pub record OutputData : Type 0 where
  pub runtime_statistics : Field RuntimeStatistics
  pub errors : Field (List OutputDataError)
  pub skip_reason : Field String
  pub regression_analysis : Field (List (String × String))

abbrev merge_field : {A : Type 0} → Field A → Field A → Field A
merge_field f unset = f
merge_field f (given v) = given v

-- `setattr` for each field that is set on `other`.
unfoldable pub merge : OutputData → OutputData → OutputData
merge self other = record {
  runtime_statistics = merge_field self.runtime_statistics other.runtime_statistics;
  errors = merge_field self.errors other.errors;
  skip_reason = merge_field self.skip_reason other.skip_reason;
  regression_analysis = merge_field self.regression_analysis other.regression_analysis;
}

-- Merging is associative, so the order in which partial outputs are grouped does not matter.
pub merge_assoc : (a b c : OutputData) → merge (merge a b) c ≡ merge a (merge b c)
unfolding merge
merge_assoc a b c = ground arith

pub record WorkflowData : Type 0 where
  pub allow_failure : Bool
  pub needs_input : Option Bool
  pub retry_count : ℕ
  pub visible : Bool
  pub step : Option String
  pub manual_unblock : List (ℕ × String)

pub record WorkRequest : Type 0 where
  pub id : ℕ
  pub workspace : ℕ
  pub created_at : ℕ
  pub started_at : Option ℕ
  pub completed_at : Option ℕ
  pub created_by : ℕ
  pub aborted_by : Option ℕ
  pub status : Statuses
  pub workflows_need_update : Bool
  pub result : Results
  pub worker : Option ℕ
  pub task_type : TaskTypes
  pub task_name : String
  pub priority_base : ℤ
  pub priority_adjustment : ℤ
  pub output_data : Option OutputData
  pub unblock_strategy : UnblockStrategy
  pub parent : Option ℕ
  pub workflow_data : WorkflowData
  pub internal_collection : Option ℕ
  pub expiration_delay : Option ℕ
  pub supersedes : Option ℕ

pub data WorkerType : Type 0 where
  external celery signing : WorkerType

pub record Worker : Type 0 where
  pub id : ℕ
  pub name : Text
  pub worker_type : WorkerType
  pub concurrency : ℕ
  pub connected_at : Option ℕ
  pub token_enabled : Bool
  pub worker_pool : Option ℕ
  pub instance_created_at : Option ℕ

abbrev pub priority_effective : WorkRequest → ℤ
priority_effective w = w.priority_base +ℤ w.priority_adjustment
