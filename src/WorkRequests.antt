-- ===== src/WorkRequests.antt =====
-- The work request model: debusine/db/models/work_requests.py (the models and their queries),
-- debusine/db/models/workers.py (the worker), debusine/artifacts/models.py (the choices) and
-- debusine/tasks/models.py (OutputData).
mod Types
mod Rows
mod Database
mod Monad
pub mod Query
pub mod Workflow
pub use Types.*
unfoldable pub use Rows.*
unfoldable pub use Database.*
unfoldable pub use Monad.*
