-- ===== src/Pools.antt =====
-- Worker pools: debusine/server/provisioning.py, with launch_workers of
-- debusine/db/models/worker_pools.py and the names of debusine/db/models/workers.py.
mod Names
mod Launch
mod Budget
mod Allocate
pub mod NameLaws
pub mod Limits
pub mod Demand
pub mod Within
pub mod Provision
mod Tests
unfoldable pub use Names.*
unfoldable pub use Launch.*
unfoldable pub use Budget.*
unfoldable pub use Allocate.*
