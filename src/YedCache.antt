-- ===== src/YedCache.antt =====
-- common/yedcache.go.
mod Defs
pub mod Evict
pub mod Put
mod Tests
pub use Defs.*
