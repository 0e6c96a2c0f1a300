-- ===== src/WorkRequests/Workflow.antt =====
-- Workflows as trees of work requests: `workflow_flattened`, `compute_workflow_runtime_status` and
-- `WorkRequest.get_workflow_root` of debusine/db/models/work_requests.py.
mod Defs
pub mod Descendants
pub mod Status
pub mod Root
unfoldable pub use Defs.*
