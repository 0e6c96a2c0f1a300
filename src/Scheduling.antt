-- ===== src/Scheduling.antt =====
-- The scheduler: debusine/server/scheduler.py, with the queries on workers that it uses from
-- debusine/db/models/workers.py.
mod External
mod Workers
mod Assign
mod Delays
mod Internal
pub mod Writes
pub mod Capacity
pub mod Assignment
pub mod Candidates
pub mod Over
pub mod Progress
mod Tests
unfoldable pub use External.*
unfoldable pub use Workers.*
unfoldable pub use Assign.*
unfoldable pub use Delays.*
unfoldable pub use Internal.*
