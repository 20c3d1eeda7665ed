-- ===== src/Mempool.antt =====
-- frontend/service.go: the mempool.
pub mod Order
mod Defs
pub mod Sorted
pub mod Place
pub mod Filter
mod Tests
unfoldable pub use Defs.*
