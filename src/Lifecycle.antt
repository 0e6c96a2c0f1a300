-- ===== src/Lifecycle.antt =====
-- The life of a work request: the methods of WorkRequest in debusine/db/models/work_requests.py that
-- change its status, and the cascade of calls between them.
pub mod Reactions
mod Updates
mod Cascade
pub mod Advance
pub mod Live
pub mod Parts
pub mod Settling
pub mod Termination
pub mod Propagation
pub mod Capacity
pub mod Requests
mod Tests
unfoldable pub use Reactions.*
unfoldable pub use Updates.*
unfoldable pub use Cascade.*
