-- ===== src/Ingestor.antt =====
-- common/common.go: `BlockIngestor`.
mod Defs
pub mod Chain
pub mod Kept
pub mod Sound
pub mod Steady
pub mod Caught
mod Tests
pub use Defs.*
