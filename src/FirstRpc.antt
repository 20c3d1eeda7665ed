-- ===== src/FirstRpc.antt =====
-- common/common.go: `FirstRPC`.
mod Defs
pub mod Waits
mod Tests
unfoldable pub use Defs.*
