-- ===== src/BlockRange.antt =====
-- common/common.go: `GetBlock` and `GetBlockRange`.
mod Defs
pub mod Sent
pub mod Cached
mod Tests
unfoldable pub use Defs.*
