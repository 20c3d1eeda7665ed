-- ===== src/BlockRange/Tests.antt =====
-- Ranges over a cache of two blocks, and the theorems at them.
use lightwalletd.Common.{ℕ, List, [], ◌∷◌, ◌≡◌, arith, false, err, ok}
use lightwalletd.Common.Text.{codes}
use lightwalletd.Block.{CompactBlock}
use lightwalletd.BlockCache.{BlockCache}
use lightwalletd.BlockCache.Tests.{two_blocks, two_entries, two_blocks-Holds, unmarshal}
use lightwalletd.Fetch.{BlockReply}
use lightwalletd.Block.Tests.{twice}
use lightwalletd.BlockRange.Defs.{finished, get_block_range}
use lightwalletd.BlockRange.Sent.{IsRun, get_block_range-IsRun}
use lightwalletd.BlockRange.Cached.{IsCached, get_block_range-IsCached}

-- The node has no block.
abbrev seen : ℕ → BlockCache × BlockReply
seen h = (two_blocks, err (codes "-8: Block height out of range"))

-- From 101 down to 100.
get_block_range-IsCached_example :
    (bs : List CompactBlock) × (get_block_range unmarshal twice seen (λ _. false) 101 100
      ≡ ok (bs, finished))
    × IsCached unmarshal twice two_blocks two_entries (λ h. (seen h).1) bs (101 ∷ 100 ∷ [])
get_block_range-IsCached_example =
    get_block_range-IsCached unmarshal twice two_blocks two_entries (λ h. (seen h).1) 101 100
      two_blocks-Holds (omega arith) (omega arith) (omega arith) (omega arith)

-- From 100 up to 102, which is not there.
get_block_range-IsRun_example :
    IsRun unmarshal twice seen
      (λ _. false)
      (100 ∷ 101 ∷ 102 ∷ [])
      0
      (get_block_range unmarshal twice seen (λ _. false) 100 102)
get_block_range-IsRun_example = get_block_range-IsRun unmarshal twice seen (λ _. false) 100 102
