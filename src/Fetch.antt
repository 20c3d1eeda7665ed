-- ===== src/Fetch.antt =====
-- common/common.go: `getBlockFromRPC`.
mod Defs
pub mod Height
pub mod Exact
pub mod Tests
unfoldable pub use Defs.*
