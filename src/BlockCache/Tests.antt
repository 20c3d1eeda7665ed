-- ===== src/BlockCache/Tests.antt =====
-- A cache of two small blocks, runs of its operations, and the theorems at it.

use lightwalletd.Common.{
  ℕ, List, [], ◌∷◌, ◌++◌, ◌≡◌, refl, Option, none, some, false, ok, replicate, drop, get_or, arith,
}
use lightwalletd.Bytestring.Words.{le_bytes}
use lightwalletd.Block.{CompactBlock}
use lightwalletd.BlockCache.Defs.{BlockCache}
use lightwalletd.BlockCache.Operations.{add, get, reorg, new_block_cache}
use lightwalletd.BlockCache.Frames.{Entry, blocks_bytes, lengths_bytes, offsets}
use lightwalletd.BlockCache.Refine.{Holds, add-Holds}
use lightwalletd.BlockCache.Lookup.{get_lookup, reorg-Holds}
use lightwalletd.BlockCache.Restart.{new_block_cache-Holds}
use lightwalletd.BlockCache.Recovery.{IsIndexed}
use lightwalletd.BlockCache.Settle.{IsTipped}
use lightwalletd.BlockCache.Load.{new_block_cache-recovers}

-- A message of 80 bytes: the height, and a hash of equal bytes.
abbrev pub small_block : ℕ → ℕ → CompactBlock
small_block height b = record {
  height = height;
  hash = replicate 32 b;
  prev_hash = [];
  time = 0;
  vtx = [];
}

abbrev marshal : CompactBlock → Option (List ℕ)
marshal block = some (block.height ∷ replicate 47 0 ++ block.hash)

abbrev pub unmarshal : List ℕ → Option CompactBlock
unmarshal d =
    some (record { height = get_or d 0 0; hash = drop 48 d; prev_hash = []; time = 0; vtx = [] })

abbrev entry : ℕ → ℕ → Entry
entry height b = (small_block height b, height ∷ replicate 47 0 ++ replicate 32 b)

abbrev pub two_entries : List Entry
two_entries = entry 100 1 ∷ entry 101 2 ∷ []

abbrev pub two_blocks : BlockCache
two_blocks = record {
  lengths_file = lengths_bytes two_entries;
  blocks_file = blocks_bytes 100 two_entries;
  starts = offsets 0 two_entries;
  first_block = 100;
  next_block = 102;
  latest_hash = some (replicate 32 2);
}

pub two_blocks-Holds : Holds unmarshal two_blocks two_entries
two_blocks-Holds = record {
  stored = record {
    lengths = refl;
    blocks = refl;
    starts = refl;
    next = refl;
    entries = (
      refl,
      refl,
      refl,
      omega arith,
      omega arith,
      (refl, refl, refl, omega arith, omega arith, tt),
    );
  };
  latest = refl;
}

add-Holds_example :
    (c' : BlockCache) × (add marshal two_blocks 102 (small_block 102 3) ≡ ok (none, c'))
    × Holds unmarshal c' (two_entries ++ entry 102 3 ∷ [])
    × (c'.first_block ≡ 100)
add-Holds_example =
    add-Holds unmarshal marshal two_blocks two_entries (small_block 102 3) (entry 102 3).1
      two_blocks-Holds refl refl refl refl (omega arith) (omega arith)

get_lookup_example : get unmarshal two_blocks 101 ≡ ok (some (small_block 101 2), none)
get_lookup_example = get_lookup unmarshal two_blocks two_entries 101 two_blocks-Holds

reorg-Holds_example :
    (c' : BlockCache) × (reorg unmarshal 1 two_blocks 101 ≡ ok c')
    × Holds unmarshal c' (entry 100 1 ∷ [])
    × (c'.first_block ≡ 100)
reorg-Holds_example = reorg-Holds unmarshal 0 two_blocks two_entries 101 two_blocks-Holds

new_block_cache-Holds_example :
    (c' : BlockCache) × (new_block_cache unmarshal 1 two_blocks.lengths_file two_blocks.blocks_file
        100 false
      ≡ ok c')
    × Holds unmarshal c' two_entries
    × (c'.first_block ≡ 100)
new_block_cache-Holds_example =
    new_block_cache-Holds unmarshal 0 two_blocks two_entries two_blocks-Holds

-- Files of which nothing can be used: an impossible length, and bytes that are no block.
new_block_cache-recovers_example :
    (c' : BlockCache) × (new_block_cache unmarshal 9
        (le_bytes 4 80 ++ 1 ∷ 2 ∷ [])
        (1 ∷ 2 ∷ 3 ∷ [])
        100
        false
      ≡ ok c')
    × IsIndexed c'
    × IsTipped unmarshal c'
    × (c'.first_block ≡ 100)
new_block_cache-recovers_example =
    new_block_cache-recovers unmarshal 9 (le_bytes 4 80 ++ 1 ∷ 2 ∷ []) (1 ∷ 2 ∷ 3 ∷ []) 100 false
      (unfold le_bytes in omega arith)
