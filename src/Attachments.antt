-- ===== src/Attachments.antt =====
-- packages/bridge/src/core/attachments.ts: AttachmentStore.
mod Defs
mod Names
pub mod Begin
pub mod Append
pub mod Ends
pub mod Stream
pub mod Filed
pub mod Rows
pub mod Upload
pub mod Refinement
pub mod Limits
pub mod RoundTrip
pub mod Reading
pub mod Filenames
mod Tests
unfoldable pub use Defs.*
unfoldable pub use Names.*
