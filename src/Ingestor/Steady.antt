-- ===== src/Ingestor/Steady.antt =====
-- A node that serves one chain, and a round of `BlockIngestor` against it.
use lightwalletd.Common.{
  ℕ, zero, suc, ◌+◌, ◌-◌, ◌≤◌, ◌<◌, List, [], ◌∷◌, ◌≡◌, refl, sym, ap, ◌∙◌, arith, Option, none,
  some, true, false, le→ltb, ok, length, take, get_elem?,
}
use mathlib.Core.Option.{some-injective}
use mathlib.Core.Path.{subst}
use lightwalletd.Block.{CompactBlock}
use lightwalletd.BlockCache.{same_bytes, hash_mismatch, add}
use lightwalletd.BlockCache.Frames.{Entry}
use lightwalletd.BlockCache.Holds.{AreEntries}
use lightwalletd.BlockCache.Refine.{Holds, add-Holds}
use lightwalletd.BlockCache.Lookup.{reorg-Holds}
use lightwalletd.Fetch.{BlockReply, get_block_from_rpc}
use lightwalletd.Ingestor.Defs.{Ingestor, backed_up, with_block, advance, round}
use lightwalletd.Ingestor.Chain.{
  IsLinked, hash_after, hash_after-none, hash_after-take-suc, take-suc, IsNext-at, mismatch_false,
  mismatch_true,
}

pub length-take_le : (n : ℕ) (es : List Entry) → n ≤ length es → length (take n es) ≡ n
length-take_le zero es h = refl
length-take_le (suc n) [] h = absurd (omega arith)
length-take_le (suc n) (e ∷ es) h = ap suc (length-take_le n es (omega arith))

pub take-take-suc : (n : ℕ) (es : List Entry) → take n (take (suc n) es) ≡ take n es
take-take-suc zero es = refl
take-take-suc (suc n) [] = refl
take-take-suc (suc n) (e ∷ es) = ap (λ l. e ∷ l) (take-take-suc n es)

module _ (marshal : CompactBlock → Option (List ℕ)) (unmarshal : List ℕ → Option CompactBlock)
    (sha256 : List ℕ → List ℕ) where
  -- The node has these blocks, one behind the other from the height on, and answers with them; each
  -- has a message that the cache can store.
  pub record IsSteady (node : ℕ → BlockReply) (first : ℕ) (bs : List Entry) : Type 0 where
    pub entries : AreEntries unmarshal first bs
    pub linked : IsLinked none bs
    pub marshalled : (i : ℕ) (e : Entry) → get_elem? bs i ≡ some e → marshal e.0 ≡ some e.1
    pub served :
        (i : ℕ) (e : Entry)
        → get_elem? bs i ≡ some e
        → get_block_from_rpc sha256 (first + i) (node (first + i)) ≡ ok (ok (some e.0))

  parts_at :
      (h i : ℕ) (bs : List Entry) (e : Entry)
      → AreEntries unmarshal h bs
      → get_elem? bs i ≡ some e
      → (e.0.height ≡ h + i)
        × (unmarshal e.1 ≡ some e.0)
        × (length e.0.hash ≡ 32)
        × (74 ≤ length e.1)
        × (length e.1 ≤ 4000000)
  parts_at h i [] e a k = absurd (ground arith)
  parts_at h zero (f ∷ bs) e (p, q, r, s, t, a) k =
      subst
        (λ x.
          (x.0.height ≡ h + 0)
          × (unmarshal x.1 ≡ some x.0)
          × (length x.0.hash ≡ 32)
          × (74 ≤ length x.1)
          × (length x.1 ≤ 4000000))
        (some-injective f e k) (omega arith, q, r, s, t)
  parts_at h (suc i) (f ∷ bs) e (p, q, r, s, t, a) k =
      let (u, v, w, x, y) = parts_at (h + 1) i bs e a k in (omega arith, v, w, x, y)

  module _ (fuel : ℕ) (node : ℕ → BlockReply) (first : ℕ) (bs : List Entry) where
    -- A round with the cache's blocks in front of the one that the node has next: it is added.
    pub round_adds :
        (s : Ingestor) (j : ℕ) (e : Entry)
        → IsSteady node first bs
        → Holds unmarshal s.cache (take j bs)
        → s.cache.first_block ≡ first
        → j < length bs
        → get_elem? bs j ≡ some e
        → (s' : Ingestor) × (round marshal unmarshal (suc fuel) sha256 s (node s.cache.next_block)
            ≡ ok s')
          × Holds unmarshal s'.cache (take (suc j) bs)
          × (s'.cache.first_block ≡ first)
    unfolding round advance with_block
    round_adds s j e w holds from within at_j =
        let next : s.cache.next_block ≡ first + j =
          omega (arith, holds.stored.next, length-take_le j bs (omega arith)) in
        let (height, back, hash, long, short) = parts_at first j bs e w.entries at_j in
        let (c, done, holds', same) =
          add-Holds unmarshal marshal s.cache (take j bs) e.0 e.1 holds (height ∙ sym next)
            (w.marshalled j e at_j) back hash long short in
        let got : get_block_from_rpc sha256 s.cache.next_block (node s.cache.next_block)
            ≡ ok (ok (some e.0)) =
          ap (λ n. get_block_from_rpc sha256 n (node n)) next ∙ w.served j e at_j in
        let follows : hash_mismatch s.cache e.0.prev_hash ≡ false =
          mismatch_false s.cache (hash_after none (take j bs)) e.0
            (holds.latest ∙ sym (hash_after-none (take j bs)))
            (IsNext-at none j bs e w.linked at_j) in
        (
          record s { cache = c; retry_count = 0; wait = true; reorg_count = 0 },
          rw (got, follows, ap (λ n. add marshal s.cache n e.0) (next ∙ sym height) ∙ done) refl,
          subst (Holds unmarshal c) (sym (take-suc j bs e at_j)) holds',
          same ∙ from,
        )

    -- A round with a last block that is not the one that the node's next block follows: it is taken
    -- back.
    pub round_backs_up :
        (s : Ingestor) (es : List Entry) (j : ℕ) (x f : Entry)
        → IsSteady node first bs
        → Holds unmarshal s.cache (take (suc j) es)
        → s.cache.first_block ≡ first
        → j < length es
        → s.reorg_count < 100
        → get_elem? es j ≡ some x
        → get_elem? bs (suc j) ≡ some f
        → same_bytes x.0.hash f.0.prev_hash ≡ false
        → (s' : Ingestor) × (round marshal unmarshal (suc fuel) sha256 s (node s.cache.next_block)
            ≡ ok s')
          × Holds unmarshal s'.cache (take j es)
          × (s'.cache.first_block ≡ first)
          × (s'.reorg_count ≡ s.reorg_count + 1)
    unfolding round advance with_block backed_up
    round_backs_up s es j x f w holds from within below at_x at_f fork =
        let next : s.cache.next_block ≡ first + suc j =
          omega (arith, holds.stored.next, length-take_le (suc j) es (omega arith)) in
        let (c, done, holds', same) =
          reorg-Holds unmarshal fuel s.cache (take (suc j) es) (s.cache.next_block - 1) holds in
        let left : (s.cache.next_block - 1) - s.cache.first_block ≡ j = omega arith in
        let got : get_block_from_rpc sha256 s.cache.next_block (node s.cache.next_block)
            ≡ ok (ok (some f.0)) =
          ap (λ n. get_block_from_rpc sha256 n (node n)) next ∙ w.served (suc j) f at_f in
        let forked : hash_mismatch s.cache f.0.prev_hash ≡ true =
          mismatch_true s.cache x.0.hash f.0
            (holds.latest
              ∙ sym (hash_after-none (take (suc j) es))
              ∙ hash_after-take-suc none j es x at_x)
            fork in
        (
          record s { cache = c; retry_count = 0; reorg_count = s.reorg_count + 1 },
          rw (got, forked, le→ltb 100 (s.reorg_count + 1) (omega arith), done) refl,
          subst (Holds unmarshal c) (ap (λ n. take n (take (suc j) es)) left ∙ take-take-suc j es)
              holds',
          same ∙ from,
          refl,
        )
