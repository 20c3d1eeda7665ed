-- ===== src/Yellowback.antt =====
-- common/yellowback.go.
mod Methods
mod Calls
pub mod Gate
mod Tests
pub use Methods.*
unfoldable pub use Calls.*
