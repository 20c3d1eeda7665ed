-- ===== src/NodeInfo.antt =====
-- common/common.go: `GetLightdInfo`.
mod Defs
pub mod Replied
mod Tests
unfoldable pub use Defs.*
