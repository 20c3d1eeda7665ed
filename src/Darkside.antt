-- ===== src/Darkside.antt =====
-- common/darkside.go: the mock node of wallet tests.
mod Defs
mod Apply
mod Requests
pub mod Counted
pub mod Active
pub mod Served
mod Tests
unfoldable pub use Defs.*
unfoldable pub use Apply.*
unfoldable pub use Requests.*
