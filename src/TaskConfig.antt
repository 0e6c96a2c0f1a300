-- ===== src/TaskConfig.antt =====
-- Task configuration: DebusineTaskConfiguration of debusine/artifacts/models.py, the collection
-- manager of debusine/server/collections/debusine_task_configuration.py, and the view of
-- debusine/server/views/collections.py that replaces a collection's contents.
mod Quote
mod Items
mod Templates
mod Values
mod Contents
mod View
pub mod QuoteLaws
pub mod LookupNames
pub mod Matching
pub mod Levels
pub mod Circles
pub mod Resolution
pub mod Verdicts
pub mod Applied
pub mod ContentLaws
pub mod Replace
pub mod Merge
pub mod Push
pub mod Additions
pub mod Agreement
pub mod DryRun
pub mod Order
mod Tests
unfoldable pub use Quote.*
unfoldable pub use Items.*
unfoldable pub use Templates.*
unfoldable pub use Values.*
unfoldable pub use Contents.*
unfoldable pub use View.*
