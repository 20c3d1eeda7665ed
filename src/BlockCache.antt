-- ===== src/BlockCache.antt =====
-- common/cache.go.
mod Checksum
mod Defs
mod Operations
pub mod Frames
pub mod Holds
pub mod Cut
pub mod Refine
pub mod Lookup
pub mod Restart
pub mod Recovery
pub mod Settle
pub mod Load
pub mod Tests
unfoldable pub use Checksum.*
unfoldable pub use Defs.*
unfoldable pub use Operations.*
