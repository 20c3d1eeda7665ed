-- ===== src/Ingestor/Sound.antt =====
-- Every round of `BlockIngestor` keeps the chain, whatever the node replies.
use lightwalletd.Common.{
  ℕ, suc, List, [], ◌∷◌, ◌≡◌, refl, ap, ◌∙◌, Option, none, some, All, Result, ok, err,
}
use lightwalletd.Block.{CompactBlock}
use lightwalletd.BlockCache.{Halt, fatal, panic, no_fuel}
use lightwalletd.BlockCache.Frames.{Entry}
use lightwalletd.Fetch.{BlockReply, Fetched, get_block_from_rpc}
use lightwalletd.Fetch.Height.{get_block_from_rpc-height}
use lightwalletd.Ingestor.Defs.{Ingestor, advance, round, and_then, block_ingestor}
use lightwalletd.Ingestor.Kept.{
  IsStorable, IsKept, IsSound, retried-IsSound, at_tip-IsSound, with_block-IsSound, undelayed,
}

module _ (marshal : CompactBlock → Option (List ℕ)) (unmarshal : List ℕ → Option CompactBlock)
    (fuel : ℕ) where
  -- What a reply can bring, at whatever height it is asked for: no panic, and a block that can be
  -- stored.
  abbrev pub IsServed : (List ℕ → List ℕ) → BlockReply → Type 0
  IsServed sha256 reply =
      (height : ℕ)
      → (f : Fetched) × (get_block_from_rpc sha256 height reply ≡ ok f)
        × ((b : CompactBlock) → f ≡ ok (some b) → IsStorable marshal unmarshal b)

  advance-IsSound :
      (first : ℕ) (s : Ingestor) (es : List Entry) (f : Fetched)
      → IsKept marshal unmarshal first s es
      → ((b : CompactBlock)
          → f ≡ ok (some b)
          → (b.height ≡ s.cache.next_block) × IsStorable marshal unmarshal b)
      → IsSound marshal unmarshal first
          (advance marshal unmarshal (suc fuel) s s.cache.next_block f)
  unfolding advance
  advance-IsSound first s es (err e) k w = retried-IsSound marshal unmarshal fuel first s es k
  advance-IsSound first s es (ok none) k w =
      at_tip-IsSound marshal unmarshal fuel first _ es s.cache.next_block
        (undelayed marshal unmarshal fuel first s es k)
  advance-IsSound first s es (ok (some b)) k w =
      let (h, storable) = w b refl in
      with_block-IsSound marshal unmarshal fuel first _ es b
        (undelayed marshal unmarshal fuel first s es k) h storable

  module _ (sha256 : List ℕ → List ℕ) where
    round-IsSound :
        (first : ℕ) (s : Ingestor) (es : List Entry) (reply : BlockReply)
        → IsKept marshal unmarshal first s es
        → IsServed sha256 reply
        → IsSound marshal unmarshal first (round marshal unmarshal (suc fuel) sha256 s reply)
    unfolding round
    round-IsSound first s es reply k w =
        let (f, got, storable) = w s.cache.next_block in
        rw got (
          advance-IsSound first s es f k (λ b e. (
            (get_block_from_rpc-height sha256 s.cache.next_block reply b (got ∙ ap ok e)).0,
            storable b e,
          )))

    rest-IsSound :
        (first : ℕ) (seen : List (Option BlockReply)) (r : Result Halt Ingestor)
        → ((s : Ingestor) (es : List Entry)
            → IsKept marshal unmarshal first s es
            → IsSound marshal unmarshal first
                (block_ingestor marshal unmarshal (suc fuel) sha256 s seen))
        → IsSound marshal unmarshal first r
        → IsSound marshal unmarshal first (
            and_then marshal unmarshal
              (suc fuel)
              sha256
              (λ s. block_ingestor marshal unmarshal (suc fuel) sha256 s seen)
              r)
    rest-IsSound first seen (ok s) next (es, k) = next s es k
    rest-IsSound first seen (err (fatal m)) next k = tt
    rest-IsSound first seen (err panic) next k = absurd k
    rest-IsSound first seen (err no_fuel) next k = absurd k

    -- Whatever the node replies and for however many rounds, if the replies bring no panic and only
    -- blocks that the cache can store, the loop goes on with a cache that holds blocks that follow
    -- one another by their hashes, or has ended in one of its own fatal errors.
    pub block_ingestor-IsSound :
        (first : ℕ) (s : Ingestor) (es : List Entry) (seen : List (Option BlockReply))
        → IsKept marshal unmarshal first s es
        → All (λ o. (reply : BlockReply) → o ≡ some reply → IsServed sha256 reply) seen
        → IsSound marshal unmarshal first
            (block_ingestor marshal unmarshal (suc fuel) sha256 s seen)
    unfolding block_ingestor
    block_ingestor-IsSound first s es [] k w = (es, k)
    block_ingestor-IsSound first s es (none ∷ seen) k w = (es, k)
    block_ingestor-IsSound first s es (some reply ∷ seen) k w =
        rest-IsSound first seen (round marshal unmarshal (suc fuel) sha256 s reply)
          (λ s' es' k'. block_ingestor-IsSound first s' es' seen k' w.1)
          (round-IsSound first s es reply k (w.0 reply refl))
