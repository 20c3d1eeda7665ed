-- ===== src/Block/Tests.antt =====
-- A block of a coinbase transaction and a Sapling transaction, and the theorems at it.
use lightwalletd.Common.{
  ℕ, List, [], ◌∷◌, ◌++◌, ◌≡◌, ◌↔◌, refl, All, IsByte, are_bytes→All, ok, some, arith,
  if◌then◌else◌, ◌==◌,
}
use mathlib.Core.Option
use lightwalletd.Common.Int.{pos}
use lightwalletd.Scan.{◌>>=◌}
use lightwalletd.Bytestring.Words.{le_bytes}
use lightwalletd.CompactSize.{compact_size}
use lightwalletd.Header.{RawBlockHeader, marshal_binary}
use lightwalletd.Header.Tests.{small_header}
use lightwalletd.Transaction.{CompactTx, Transaction}
use lightwalletd.Transaction.Tests.{coinbase, sapling}
use lightwalletd.Block.Defs.{
  Block, new_block, parse_block, coinbase_script, get_height, compact_vtx,
  genesis_target_difficulty,
}
use lightwalletd.Block.RoundTrip.{parse_block_accepts, block_bytes, filled, IsSizedBlock}
use lightwalletd.Block.Height.{get_height_settles, get_height-push, IsHeight}
use lightwalletd.Block.Compact.{IsIn, IsEntryOf, IsAscending, compact_vtx-IsEntryOf}

abbrev pub parts : RawBlockHeader × List Transaction
parts = (small_header, coinbase ∷ sapling ∷ [])

abbrev pub small_block : Block
small_block = filled new_block parts

-- Any function stands for SHA-256 here.
abbrev pub twice : List ℕ → List ℕ
twice bs = bs ++ bs

abbrev block_input : List ℕ
block_input = block_bytes parts ++ 9 ∷ []

block_input-AreBytes : All IsByte block_input
block_input-AreBytes =
    are_bytes→All block_input (unfold marshal_binary le_bytes compact_size in refl)

parse_block_accepts_example : (parse_block new_block block_input ≡ (ok small_block, 9 ∷ [])) ↔ (
    (p : RawBlockHeader × List Transaction) × (small_block ≡ filled new_block p)
    × IsSizedBlock p
    × (block_input ≡ block_bytes p ++ 9 ∷ []))
parse_block_accepts_example =
    parse_block_accepts new_block small_block block_input (9 ∷ []) block_input-AreBytes

pub small_height :
    get_height small_block ≡ some (pos 123456, record small_block { height = pos 123456 })
unfolding get_height ◌>>=◌
small_height = refl

get_height_settles_example :
    IsHeight (pos 123456)
    × (get_height (record small_block { height = pos 123456 })
        ≡ some (pos 123456, record small_block { height = pos 123456 }))
    × (small_block.hdr ≡ small_block.hdr)
    × (small_block.vtx ≡ small_block.vtx)
get_height_settles_example =
    get_height_settles small_block (record small_block { height = pos 123456 }) (pos 123456) refl
      small_height

get_height-push_example :
    Option.map (λ r. r.0) (get_height small_block)
    ≡ some (if 123456 == genesis_target_difficulty then pos 0 else pos 123456)
get_height-push_example =
    get_height-push small_block 3 123456 (0x51 ∷ []) (omega arith) (omega arith) (omega arith)
      (omega arith) refl (unfold coinbase_script le_bytes in refl)

compact_vtx-IsEntryOf_example :
    ((c : CompactTx)
      → IsIn twice c (compact_vtx twice 0 small_block.vtx) ↔ IsEntryOf twice 0 small_block.vtx c)
    × IsAscending twice 0 (compact_vtx twice 0 small_block.vtx)
compact_vtx-IsEntryOf_example = compact_vtx-IsEntryOf twice small_block
