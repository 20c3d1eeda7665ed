-- ===== src/Address.antt =====
-- frontend/yellowback_addr.go, and the checks of addresses in frontend/service.go.
mod Defs
pub mod Versions
pub mod Payload
pub mod Converted
pub mod Accepted
mod Tests
unfoldable pub use Defs.*
