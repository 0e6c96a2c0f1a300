-- ===== src/Roles.antt =====
-- Roles and permissions: debusine/db/models/permissions.py, and the roles on workspaces of
-- debusine/db/models/workspaces.py.
mod Implied
mod Resource
mod Permission
pub mod Minimal
pub mod HasRole
pub mod Visible
pub mod Agreement
mod Tests
unfoldable pub use Implied.*
unfoldable pub use Resource.*
unfoldable pub use Permission.*
