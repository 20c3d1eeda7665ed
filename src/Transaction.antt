-- ===== src/Transaction.antt =====
-- parser/transaction.go.
mod Defs
mod Whole
pub mod Parts
pub mod Sprout
pub mod Format
pub mod RoundTrip
pub mod Parse
pub mod Tests
pub use Defs.{TxIn, TxOut, Spend, Output, JoinSplit}
unfoldable pub use Defs.{
  parse_tx_in, parse_tx_out, parse_spend, parse_output, read_pair, read_proof, parse_join_split,
}
pub use Whole.{
  RawTransaction, Transaction, SaplingPart, SproutPart, CompactOutput, CompactTx, with_raw_bytes,
}
unfoldable pub use Whole.{
  read_header, read_many, read_sapling, read_sprout, parse_raw, parse_transaction, spend_to_compact,
  output_to_compact, has_sapling_elements, tx_encodable_hash, tx_display_hash, tx_to_compact,
}
