-- ===== src/Deletion.antt =====
-- Deletion of what has expired: DeleteUnused of debusine/db/models/work_requests.py, and
-- DeleteExpiredArtifacts of debusine/server/management/commands/delete_expired.py.
mod Schema
mod Prune
mod Unused
mod Artifacts
pub mod PruneLaws
pub mod Trees
pub mod Integrity
pub mod Sweep
pub mod Kept
mod Links
mod Tests
unfoldable pub use Schema.*
unfoldable pub use Prune.*
unfoldable pub use Unused.*
unfoldable pub use Artifacts.*
