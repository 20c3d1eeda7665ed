-- ===== src/RateLimit.antt =====
-- frontend/yellowback_ratelimit.go.
mod Defs
mod PeerKey
pub mod Bounded
pub mod Kept
pub mod Refilled
pub mod Forged
mod Tests
unfoldable pub use Defs.*
unfoldable pub use PeerKey.*
