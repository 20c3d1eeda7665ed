-- ===== src/Fetch/Tests.antt =====
-- A reply with a small block, and the theorems at it.
use lightwalletd.Common.{
  ℕ, List, [], ◌≡◌, ◌↔◌, refl, All, IsByte, are_bytes→All, ok, err, some, none,
}
use lightwalletd.Common.Int.{pos}
use lightwalletd.Common.Text.{codes}
use lightwalletd.Scan.{◌>>=◌, wrapping, repeat}
use lightwalletd.Header.{parse_from_slice}
use lightwalletd.Bytestring.{
  read_int32, read_bytes, read_compact_length_prefixed, read_uint64, read_int64,
}
use lightwalletd.Transaction.{parse_tx_in, parse_tx_out, parse_spend, parse_output}
use lightwalletd.Bytestring.Words.{le_bytes}
use lightwalletd.CompactSize.{compact_size}
use lightwalletd.Header.{marshal_binary}
use lightwalletd.Block.{Block, CompactBlock, new_block, parse_block, compact_with, get_height}
use lightwalletd.Block.RoundTrip.{block_bytes}
use lightwalletd.Block.Tests.{parts, small_block, twice}
use lightwalletd.Header.Tests.{small_header}
use lightwalletd.Fee.{encode_to_string}
use lightwalletd.Fetch.Defs.{get_block_from_rpc}
use lightwalletd.Fetch.Exact.{IsAnswer, get_block_from_rpc-IsAnswer}

abbrev pub bytes : List ℕ
bytes = block_bytes parts

pub bytes-AreBytes : All IsByte bytes
bytes-AreBytes = are_bytes→All bytes (unfold marshal_binary le_bytes compact_size in refl)

pub bytes_read : parse_block new_block bytes ≡ (ok small_block, [])
unfolding parse_block marshal_binary le_bytes compact_size ◌>>=◌ wrapping parse_from_slice
    read_int32 read_bytes read_compact_length_prefixed repeat parse_tx_in parse_tx_out read_uint64
    read_int64 parse_spend parse_output
bytes_read = refl

abbrev pub settled : Block
settled = record small_block { height = pos 123456 }

abbrev compact : CompactBlock × Block
compact =
    compact_with twice (record { raw = small_header; cached_hash = none }) (pos 123456, settled)

settled_again : get_height settled ≡ some (pos 123456, settled)
unfolding get_height
settled_again = refl

-- The error text of a height that the node does not have.
too_high : get_block_from_rpc twice 7 (err (codes "-8: Block height out of range")) ≡ ok (ok none)
unfolding get_block_from_rpc
too_high = refl

get_block_from_rpc-IsAnswer_example :
    (get_block_from_rpc twice 123456 (ok (some (encode_to_string bytes)))
      ≡ ok (ok (some compact.0)))
    ↔ IsAnswer twice 123456 (ok (some (encode_to_string bytes))) compact.0
get_block_from_rpc-IsAnswer_example =
    get_block_from_rpc-IsAnswer twice 123456 (ok (some (encode_to_string bytes))) compact.0
