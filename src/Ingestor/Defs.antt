-- ===== src/Ingestor/Defs.antt =====
-- common/common.go: `BlockIngestor`. A round of the loop is a
-- step of the variables that it keeps; `slept` adds up its waits, in seconds. What is only logged
-- is left out. The fuel is for the cache's `setLatestHash`.
use lightwalletd.Common.{
  ℕ, zero, suc, ◌+◌, ◌-◌, List, [], ◌∷◌, Bool, true, false, Option, none, some, Error, Result, ok,
  err, ltb, ◌==◌, if◌then◌else◌,
}
use lightwalletd.Block.{CompactBlock}
use lightwalletd.BlockCache.{Halt, fatal, BlockCache, hash_mismatch, add, reorg}
use lightwalletd.Fetch.{BlockReply, Fetched, get_block_from_rpc}

pub record Ingestor : Type 0 where
  pub cache : BlockCache
  pub retry_count : ℕ
  pub reorg_count : ℕ
  pub wait : Bool
  pub slept : ℕ

abbrev pub started : BlockCache → Ingestor
started c = record { cache = c; retry_count = 0; reorg_count = 0; wait = true; slept = 0 }

module _ (marshal : CompactBlock → Option (List ℕ)) (unmarshal : List ℕ → Option CompactBlock)
    (fuel : ℕ) where
  abbrev pub with_cache : Ingestor → Result Halt BlockCache → Result Halt Ingestor
  with_cache s (err e) = err e
  with_cache s (ok c) = ok (record s { cache = c })

  -- The call has failed: wait and try the same height again.
  abbrev pub retried : Ingestor → Result Halt Ingestor
  retried s =
      if ltb 10 (s.retry_count + 1)
      then err (fatal "unable to issue RPC call to zcashd node")
      else ok (record s { retry_count = s.retry_count + 1; slept = s.slept + 10; wait = true })

  -- `c.Reorg(height - 1)`
  unfoldable pub backed_up : Ingestor → ℕ → Result Halt Ingestor
  unfolding reorg
  backed_up s height =
      let s' = record s { reorg_count = s.reorg_count + 1 } in
      let backed = with_cache s' (reorg unmarshal fuel s.cache (height - 1)) in
      if ltb 100 (s.reorg_count + 1)
      then err (fatal "Reorg exceeded max of 100 blocks! Help!")
      else backed

  -- There is no block at the height.
  unfoldable pub at_tip : Ingestor → ℕ → Result Halt Ingestor
  unfolding backed_up
  at_tip s height =
      let waiting = record s { slept = s.slept + 2; wait = false } in
      if height == s.cache.first_block
      then ok (record s { reorg_count = 0; slept = s.slept + 20 })
      else if s.wait
      then ok waiting
      else backed_up s height

  abbrev pub after_add : Ingestor → Result Halt (Option Error × BlockCache) → Result Halt Ingestor
  after_add s (err e) = err e
  after_add s (ok (some e, c)) = err (fatal "Cache add failed:")
  after_add s (ok (none, c)) = ok (record s { cache = c; wait = true; reorg_count = 0 })

  unfoldable pub with_block : Ingestor → ℕ → CompactBlock → Result Halt Ingestor
  unfolding backed_up add hash_mismatch
  with_block s height block =
      if hash_mismatch s.cache block.prev_hash
      then backed_up s height
      else after_add s (add marshal s.cache height block)

  -- A round behind the call for the block at `height`, which is the cache's next.
  unfoldable pub advance : Ingestor → ℕ → Fetched → Result Halt Ingestor
  unfolding at_tip with_block
  advance s height (err e) = retried s
  advance s height (ok none) = at_tip (record s { retry_count = 0 }) height
  advance s height (ok (some block)) = with_block (record s { retry_count = 0 }) height block

  module _ (sha256 : List ℕ → List ℕ) where
    abbrev pub on_fetched : Ingestor → Result Halt Fetched → Result Halt Ingestor
    on_fetched s (err e) = err e
    on_fetched s (ok f) = advance s s.cache.next_block f

    unfoldable pub round : Ingestor → BlockReply → Result Halt Ingestor
    unfolding advance get_block_from_rpc
    round s reply = on_fetched s (get_block_from_rpc sha256 s.cache.next_block reply)

    abbrev pub and_then :
        (Ingestor → Result Halt Ingestor) → Result Halt Ingestor → Result Halt Ingestor
    and_then next (err e) = err e
    and_then next (ok s) = next s

    -- The loop: what each round finds, a request to stop (`none`) or else the node's reply.
    unfoldable pub block_ingestor : Ingestor → List (Option BlockReply) → Result Halt Ingestor
    unfolding round
    block_ingestor s [] = ok s
    block_ingestor s (none ∷ seen) = ok s
    block_ingestor s (some reply ∷ seen) = and_then (λ s'. block_ingestor s' seen) (round s reply)

    -- The loop against a node that does not change, for a number of rounds: each asks for the
    -- block at the next height.
    unfoldable pub rounds : (ℕ → BlockReply) → ℕ → Ingestor → Result Halt Ingestor
    unfolding round
    rounds node zero s = ok s
    rounds node (suc n) s = and_then (rounds node n) (round s (node s.cache.next_block))
