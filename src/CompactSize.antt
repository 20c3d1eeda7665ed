-- ===== src/CompactSize.antt =====
-- parser/block_header.go, lines 70 to 103.
mod Defs
pub mod RoundTrip
pub mod Written
unfoldable pub use Defs.{
  compact_length_prefixed_len, write_compact_length_prefixed_len, write_compact_length_prefixed,
  compact_size,
}
