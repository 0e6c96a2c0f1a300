-- ===== src/Uploads.antt =====
-- Uploads of files in chunks: the headers of debusine/utils/__init__.py, the server's side in
-- debusine/server/views/artifacts.py, and the client's in debusine/client/file_uploader.py.
mod Headers
mod View
mod Uploader
pub mod HeaderLaws
pub mod Writes
pub mod Sound
pub mod Chunks
pub mod Progress
mod Tests
unfoldable pub use Headers.*
unfoldable pub use View.*
unfoldable pub use Uploader.*
