-- ===== src/Approval/Lifecycle.antt =====
-- The life of an approval request through the statements of gateway/internal/approval/store.go.
mod Rows
mod History
mod Clearance
mod Kept
pub use Rows.*
pub use History.*
unfoldable pub use History.{step, run}
pub use Clearance.*
pub use Kept.*
