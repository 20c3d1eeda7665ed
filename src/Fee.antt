-- ===== src/Fee.antt =====
-- parser/fee.go and frontend/sendfee.go.
mod Defs
mod Decimal
mod Send
pub mod Sums
pub mod Exact
pub mod Computed
pub mod Ceiling
mod Tests
pub use Defs.*
pub use Decimal.*
unfoldable pub use Send.*
