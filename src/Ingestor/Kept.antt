-- ===== src/Ingestor/Kept.antt =====
-- What every round of `BlockIngestor` keeps, whatever the node replies.
use lightwalletd.Common.{
  ℕ, suc, ◌+◌, ◌-◌, ◌≤◌, List, [], ◌∷◌, ◌++◌, ◌≡◌, refl, sym, ap, ◌∙◌, arith, Option, none, some,
  Bool, true, false, inl, inr, Bool-cases, Option-cases, if◌then◌else◌, new, le→ltb, ==_iff, ltb,
  ltb→le, ◌==◌, Result, ok, err, length, take,
}
use lightwalletd.Block.{CompactBlock}
use lightwalletd.BlockCache.{Halt, fatal, panic, no_fuel, BlockCache, hash_mismatch, add}
use lightwalletd.BlockCache.Frames.{Entry}
use lightwalletd.BlockCache.Refine.{Holds, add-Holds}
use lightwalletd.BlockCache.Lookup.{reorg-Holds}
use lightwalletd.Ingestor.Defs.{Ingestor, retried, backed_up, at_tip, after_add, with_block}
use lightwalletd.Ingestor.Chain.{
  IsLinked, hash_after, hash_after-none, append-IsLinked, take-IsLinked, IsNext-match,
}

module _ (marshal : CompactBlock → Option (List ℕ)) (unmarshal : List ℕ → Option CompactBlock) where
  -- What the cache can store of a block: its message, if there is one, is read back, has a size
  -- within the bounds of the cache, and the hash has 32 bytes.
  pub record IsStorable (block : CompactBlock) : Type 0 where
    pub hash : length block.hash ≡ 32
    pub back : (d : List ℕ) → marshal block ≡ some d → unmarshal d ≡ some block
    pub long : (d : List ℕ) → marshal block ≡ some d → 74 ≤ length d
    pub short : (d : List ℕ) → marshal block ≡ some d → length d ≤ 4000000

  -- The cache holds blocks that follow one another, and the counters are within their bounds.
  pub record IsKept (first : ℕ) (s : Ingestor) (es : List Entry) : Type 0 where
    pub holds : Holds unmarshal s.cache es
    pub linked : IsLinked none es
    pub from : s.cache.first_block ≡ first
    pub retries : s.retry_count ≤ 10
    pub reorgs : s.reorg_count ≤ 100

  -- The loop goes on like this, or has ended in one of its own fatal errors.
  abbrev pub IsSound : ℕ → Result Halt Ingestor → Type 0
  IsSound first (ok s) = (es : List Entry) × IsKept first s es
  IsSound first (err (fatal m)) = Unit {0}
  IsSound first (err panic) = ⊥
  IsSound first (err no_fuel) = ⊥

  module _ (fuel : ℕ) where
    pub retried-IsSound :
        (first : ℕ) (s : Ingestor) (es : List Entry)
        → IsKept first s es
        → IsSound first (retried marshal unmarshal (suc fuel) s)
    retried-IsSound first s es k = elim (Bool-cases (ltb 10 (s.retry_count + 1))) [
      | inl over ↦ rw over tt
      | inr within ↦ rw within (
        es,
        record {
          holds = k.holds;
          linked = k.linked;
          from = k.from;
          retries = omega (arith, ltb→le 10 (s.retry_count + 1) within);
          reorgs = k.reorgs;
        },
      )
    ]

    backed_up-IsSound :
        (first : ℕ) (s : Ingestor) (es : List Entry) (height : ℕ)
        → IsKept first s es
        → IsSound first (backed_up marshal unmarshal (suc fuel) s height)
    unfolding backed_up
    backed_up-IsSound first s es height k = elim (Bool-cases (ltb 100 (s.reorg_count + 1))) [
      | inl over ↦ rw over tt
      | inr within ↦
          let (c, done, holds, same) = reorg-Holds unmarshal fuel s.cache es (height - 1) k.holds in
          rw (within, done)
            (
              take ((height - 1) - s.cache.first_block) es,
              record {
                holds = holds;
                linked = take-IsLinked none _ es k.linked;
                from = same ∙ k.from;
                retries = k.retries;
                reorgs = omega (arith, ltb→le 100 (s.reorg_count + 1) within);
              },
            )
    ]

    either :
        (first : ℕ) (b : Bool) (x y : Result Halt Ingestor)
        → IsSound first x
        → IsSound first y
        → IsSound first (if b then x else y)
    either first true x y p q = p
    either first false x y p q = q

    pub at_tip-IsSound :
        (first : ℕ) (s : Ingestor) (es : List Entry) (height : ℕ)
        → IsKept first s es
        → IsSound first (at_tip marshal unmarshal (suc fuel) s height)
    unfolding at_tip
    at_tip-IsSound first s es height k =
        either first (height == s.cache.first_block) _ _
          (
            es,
            record {
              holds = k.holds;
              linked = k.linked;
              from = k.from;
              retries = k.retries;
              reorgs = omega arith;
            },
          )
          (either first s.wait _ _
            (
              es,
              record {
                holds = k.holds;
                linked = k.linked;
                from = k.from;
                retries = k.retries;
                reorgs = k.reorgs;
              },
            )
            (backed_up-IsSound first s es height k))

    pub undelayed :
        (first : ℕ) (s : Ingestor) (es : List Entry)
        → IsKept first s es
        → IsKept first (record s { retry_count = 0 }) es
    undelayed first s es k = record {
      holds = k.holds;
      linked = k.linked;
      from = k.from;
      retries = omega arith;
      reorgs = k.reorgs;
    }

    add_failed :
        (c : BlockCache) (es : List Entry) (block : CompactBlock)
        → Holds unmarshal c es
        → block.height ≡ c.next_block
        → marshal block ≡ none
        → add marshal c c.next_block block ≡ ok (some (new "marshal"), c)
    unfolding add
    add_failed c es block s h m =
        rw
          (
            le→ltb c.next_block c.next_block (omega arith),
            le→ltb c.next_block c.first_block (omega (arith, s.stored.next)),
            (==_iff block.height c.next_block).1 h,
            m,
          )
          refl

    added-IsSound :
        (first : ℕ) (s : Ingestor) (es : List Entry) (block : CompactBlock)
        → IsKept first s es
        → block.height ≡ s.cache.next_block
        → IsStorable block
        → hash_mismatch s.cache block.prev_hash ≡ false
        → IsSound first (
            after_add marshal unmarshal (suc fuel) s (add marshal s.cache s.cache.next_block block))
    added-IsSound first s es block k h w n = elim (Option-cases (marshal block)) [
      | inl unmarshalled ↦ rw (add_failed s.cache es block k.holds h unmarshalled) tt
      | inr (d, m) ↦
          let (c, done, holds, same) =
            add-Holds unmarshal marshal s.cache es block d k.holds h m (w.back d m) w.hash
              (w.long d m) (w.short d m) in
          rw (ap (λ n. add marshal s.cache n block) (sym h) ∙ done) (
            es ++ (block, d) ∷ [],
            record {
              holds = holds;
              linked =
                  append-IsLinked none es (block, d) k.linked
                    (IsNext-match s.cache (hash_after none es) block
                      (k.holds.latest ∙ sym (hash_after-none es)) n);
              from = same ∙ k.from;
              retries = k.retries;
              reorgs = omega arith;
            },
          )
    ]

    pub with_block-IsSound :
        (first : ℕ) (s : Ingestor) (es : List Entry) (block : CompactBlock)
        → IsKept first s es
        → block.height ≡ s.cache.next_block
        → IsStorable block
        → IsSound first (with_block marshal unmarshal (suc fuel) s s.cache.next_block block)
    unfolding with_block
    with_block-IsSound first s es block k h w =
        elim (Bool-cases (hash_mismatch s.cache block.prev_hash)) [
          | inl fork ↦ rw fork (backed_up-IsSound first s es s.cache.next_block k)
          | inr follows ↦ rw follows (added-IsSound first s es block k h w follows)
        ]
