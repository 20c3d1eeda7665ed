-- ===== src/Block.antt =====
-- parser/block.go.
mod Defs
pub mod RoundTrip
pub mod Height
pub mod Compact
pub mod Tests
pub use Defs.{Block, new_block, with_parts, genesis_target_difficulty, height_of, CompactBlock}
unfoldable pub use Defs.{
  get_tx_count, has_sapling_in, has_sapling_transactions, parse_next, parse_vtx, parse_parts,
  parse_block, first_script, script_in, coinbase_script, found_height, height_from, get_height,
  compact_vtx, compact_with, to_compact,
}
