-- ===== src/Inheritance.antt =====
-- The inheritance between workspaces, in debusine/db/models/workspaces.py: set_inheritance,
-- list_accessible_collections and get_collection of Workspace.
mod Chains
mod Listing
mod Query
pub mod ChainLaws
pub mod Paths
pub mod Steps
pub mod Accessible
pub mod Rows
pub mod Earliest
pub mod Nearest
pub mod Agreement
mod Tests
unfoldable pub use Chains.*
unfoldable pub use Listing.*
unfoldable pub use Query.*
