-- ===== src/Ingestor/Caught.antt =====
-- `BlockIngestor` against a node that does not change gets to the node's chain.
use lightwalletd.Common.{
  ℕ, zero, suc, ◌+◌, ◌-◌, ◌≤◌, ◌<◌, List, ◌≡◌, refl, ap, sym, ◌∙◌, arith, Option, some, false, ok,
  length, take, take_all, get_elem?,
}
use mathlib.Core.Path.{subst}
use native.Mathlib.Nat.{add-zero, add-suc}
use lightwalletd.Block.{CompactBlock}
use lightwalletd.BlockCache.{same_bytes}
use lightwalletd.BlockCache.Frames.{Entry}
use lightwalletd.BlockCache.Refine.{Holds}
use lightwalletd.BlockCache.Lookup.{at_index}
use lightwalletd.Fetch.{BlockReply}
use lightwalletd.Ingestor.Defs.{Ingestor, and_then, round, rounds}
use lightwalletd.Ingestor.Steady.{IsSteady, round_adds, round_backs_up}

-- The blocks of `es` from the place `k` on are those of another branch than `bs`: the block that `bs`
-- has one height above never follows them.
abbrev pub IsForkedAt : List Entry → ℕ → List Entry → Type 0
IsForkedAt bs k es =
    (i : ℕ) (x f : Entry)
    → k ≤ i
    → get_elem? es i ≡ some x
    → get_elem? bs (suc i) ≡ some f
    → same_bytes x.0.hash f.0.prev_hash ≡ false

module _ (marshal : CompactBlock → Option (List ℕ)) (unmarshal : List ℕ → Option CompactBlock)
    (sha256 : List ℕ → List ℕ) where
  module _ (fuel : ℕ) (node : ℕ → BlockReply) (first : ℕ) (bs : List Entry) where
    rounds-suc :
        (n : ℕ) (s s' : Ingestor)
        → round marshal unmarshal (suc fuel) sha256 s (node s.cache.next_block) ≡ ok s'
        → rounds marshal unmarshal (suc fuel) sha256 node (suc n) s
          ≡ rounds marshal unmarshal (suc fuel) sha256 node n s'
    unfolding rounds
    rounds-suc n s s' e =
        ap
          (and_then marshal unmarshal (suc fuel) sha256
            (rounds marshal unmarshal (suc fuel) sha256 node n))
          e

    catches_up :
        (n j : ℕ) (s : Ingestor)
        → IsSteady marshal unmarshal sha256 node first bs
        → Holds unmarshal s.cache (take j bs)
        → s.cache.first_block ≡ first
        → j + n ≡ length bs
        → (s' : Ingestor) × (rounds marshal unmarshal (suc fuel) sha256 node n s ≡ ok s')
          × Holds unmarshal s'.cache bs
    catches_up zero j s w holds from e = (
      s,
      unfold rounds in refl,
      subst (Holds unmarshal s.cache) (take_all j bs (omega arith)) holds,
    )
    catches_up (suc n) j s w holds from e =
        let (b, at_j) = at_index bs j (omega arith) in
        let (s', done, holds', from') =
          round_adds marshal unmarshal sha256 fuel node first bs s j b w holds from (omega arith)
            at_j in
        let (s'', rest, all) = catches_up n (suc j) s' w holds' from' (omega arith) in
        (s'', rounds-suc n s s' done ∙ rest, all)

    goes_back :
        (d k m : ℕ) (s : Ingestor) (es : List Entry)
        → IsSteady marshal unmarshal sha256 node first bs
        → Holds unmarshal s.cache (take (k + d) es)
        → s.cache.first_block ≡ first
        → k + d ≤ length es
        → length es < length bs
        → s.reorg_count + d ≤ 100
        → IsForkedAt bs k es
        → (s' : Ingestor) × (rounds marshal unmarshal (suc fuel) sha256 node (d + m) s
            ≡ rounds marshal unmarshal (suc fuel) sha256 node m s')
          × Holds unmarshal s'.cache (take k es)
          × (s'.cache.first_block ≡ first)
    goes_back zero k m s es w holds from within longer below fork = (
      s,
      ap (λ n. rounds marshal unmarshal (suc fuel) sha256 node n s) (omega arith),
      subst (λ n. Holds unmarshal s.cache (take n es)) (add-zero k) holds,
      from,
    )
    goes_back (suc d) k m s es w holds from within longer below fork =
        let (x, at_x) = at_index es (k + d) (omega arith) in
        let (f, at_f) = at_index bs (suc (k + d)) (omega arith) in
        let (s', done, holds', from', count) =
          round_backs_up marshal unmarshal sha256 fuel node first bs s es (k + d) x f w
            (subst (λ n. Holds unmarshal s.cache (take n es)) (add-suc k d) holds) from
            (omega arith) (omega arith) at_x at_f (fork (k + d) x f (omega arith) at_x at_f) in
        let (s'', rest, back, same) =
          goes_back d k m s' es w holds' from' (omega arith) longer (omega arith) fork in
        (
          s'',
          ap (λ n. rounds marshal unmarshal (suc fuel) sha256 node n s) (shift d m)
              ∙ rounds-suc (d + m) s s' done
              ∙ rest,
          back,
          same,
        )
      where
        shift : (a b : ℕ) → suc a + b ≡ suc (a + b)
        shift a b = omega arith

    -- Against a node that serves one chain, longer than what the cache holds, the loop takes back the
    -- blocks of another branch, at most 100 with those already counted, and then adds the node's: after
    -- one round for each of them the cache holds the node's whole chain.
    pub rounds_catch_up :
        (k : ℕ) (s : Ingestor) (es : List Entry)
        → IsSteady marshal unmarshal sha256 node first bs
        → Holds unmarshal s.cache es
        → s.cache.first_block ≡ first
        → k ≤ length es
        → take k es ≡ take k bs
        → length es < length bs
        → IsForkedAt bs k es
        → s.reorg_count + (length es - k) ≤ 100
        → (s' : Ingestor) × (rounds marshal unmarshal
              (suc fuel)
              sha256
              node
              ((length es - k) + (length bs - k))
              s
            ≡ ok s')
          × Holds unmarshal s'.cache bs
    rounds_catch_up k s es w holds from within same longer fork below =
        let whole : es ≡ take (k + (length es - k)) es =
          sym (take_all (k + (length es - k)) es (omega arith)) in
        let (s', back, holds', from') =
          goes_back (length es - k) k (length bs - k) s es w
            (subst (Holds unmarshal s.cache) whole holds) from (omega arith) longer below fork in
        let (s'', forward, all) =
          catches_up (length bs - k) k s' w (subst (Holds unmarshal s'.cache) same holds') from'
            (omega arith) in
        (s'', back ∙ forward, all)
