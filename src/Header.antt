-- ===== src/Header.antt =====
-- parser/block_header.go, but for the CompactSize functions.
mod Defs
pub mod RoundTrip
pub mod Tests
pub use Defs.{
  RawBlockHeader, BlockHeader, new_block_header, ser_block_header_minus_equihash_size, returned,
}
unfoldable pub use Defs.{
  get_size, marshal_binary, parse_header, parse_from_slice, get_encodable_hash, get_display_hash,
  get_display_prev_hash,
}
