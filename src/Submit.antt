-- ===== src/Submit.antt =====
-- frontend/service.go: `SendTransaction`.
mod Defs
pub mod Resent
mod Tests
unfoldable pub use Defs.*
