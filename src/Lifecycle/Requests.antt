-- ===== src/Lifecycle/Requests.antt =====
-- What users and orchestrators ask of a work request: `abort`, `retry`, `review_manual_unblock`
-- and `add_dependency` of debusine/db/models/work_requests.py. Whether the user has the
-- permission that `enforce` demands is the argument `allowed`.
pub mod Abort
pub mod Unblock
pub mod Retry
pub mod Successor
mod Tests
mod RetryTests
