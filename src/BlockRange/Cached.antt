-- ===== src/BlockRange/Cached.antt =====
-- `GetBlockRange` over blocks that the cache holds.
use mathlib.Core.Option
use mathlib.Core.Path.{subst}
use lightwalletd.Common.{
  ℕ, zero, suc, ◌+◌, ◌-◌, ◌≤◌, ◌<◌, List, [], ◌∷◌, ◌≡◌, refl, ap, ◌∙◌, arith, Option, none, some,
  false, ok, length, get_elem?, le→ltb,
}
use lightwalletd.Block.{CompactBlock}
use lightwalletd.BlockCache.{BlockCache}
use lightwalletd.BlockCache.Frames.{Entry}
use lightwalletd.BlockCache.Refine.{Holds}
use lightwalletd.BlockCache.Lookup.{get_lookup, at_index}
use lightwalletd.Fetch.{BlockReply}
use lightwalletd.BlockRange.Defs.{finished, get_block, height_at, range_loop, get_block_range}
use lightwalletd.BlockRange.Sent.{width, heights, rounds, rounds-heights, range_width}

module _ (unmarshal : List ℕ → Option CompactBlock) (sha256 : List ℕ → List ℕ) where
  -- A block that the cache holds is returned, and the node is not asked.
  get_block_cached :
      (c : BlockCache) (es : List Entry) (height : ℕ) (reply : BlockReply) (e : Entry)
      → Holds unmarshal c es
      → c.first_block ≤ height
      → get_elem? es (height - c.first_block) ≡ some e
      → get_block unmarshal sha256 c height reply ≡ ok (ok e.0, none)
  unfolding get_block
  get_block_cached c es height reply e s above at_h =
      rw (get_lookup unmarshal c es height s, le→ltb height c.first_block above, at_h) refl

  module _ (c : BlockCache) (es : List Entry) (replies : ℕ → BlockReply) where
    -- The block that the cache holds at a height.
    abbrev pub held : ℕ → Option CompactBlock
    held h = Option.map (λ e. e.0) (get_elem? es (h - c.first_block))

    -- The blocks are those of the heights, one for each.
    abbrev pub IsCached : List CompactBlock → List ℕ → Type 0
    IsCached [] [] = Unit {0}
    IsCached (b ∷ bs) [] = ⊥
    IsCached [] (h ∷ hs) = ⊥
    IsCached (b ∷ bs) (h ∷ hs) = (held h ≡ some b) × IsCached bs hs

    -- The cache holds the rounds' heights.
    inside :
        (start end t : ℕ)
        → c.first_block ≤ start
        → c.first_block ≤ end
        → start < c.first_block + length es
        → end < c.first_block + length es
        → t < width start end
        → (c.first_block ≤ height_at start end t)
          × (height_at start end t - c.first_block < length es)
    inside start end t a b x y less = ground arith

    loop-IsCached :
        (start end n t : ℕ)
        → Holds unmarshal c es
        → c.first_block ≤ start
        → c.first_block ≤ end
        → start < c.first_block + length es
        → end < c.first_block + length es
        → t + n ≡ width start end
        → (bs : List CompactBlock) × (range_loop unmarshal sha256
              (λ h. (c, replies h))
              (λ _. false)
              start
              end
              n
              t
            ≡ ok (bs, finished))
          × IsCached bs (rounds start end n t)
    unfolding range_loop rounds
    loop-IsCached start end zero t s a b x y e = ([], refl, tt)
    loop-IsCached start end (suc n) t s a b x y e =
        let (above, within) = inside start end t a b x y (omega arith) in
        let h = height_at start end t in
        let (f, at_h) = at_index es (h - c.first_block) within in
        let (bs, rest, k) = loop-IsCached start end n (t + 1) s a b x y (omega arith) in
        (
          f.0 ∷ bs,
          rw (get_block_cached c es h (replies h) f s above at_h, rest) refl,
          (ap (Option.map (λ e. e.0)) at_h, k),
        )

    -- A range within what the cache holds is sent from there, whatever the node would answer: the
    -- blocks of the heights from the start to the end, one by one upwards, or downwards if the end is
    -- below the start, and nil behind them.
    pub get_block_range-IsCached :
        (start end : ℕ)
        → Holds unmarshal c es
        → c.first_block ≤ start
        → c.first_block ≤ end
        → start < c.first_block + length es
        → end < c.first_block + length es
        → (bs : List CompactBlock) × (get_block_range unmarshal sha256
              (λ h. (c, replies h))
              (λ _. false)
              start
              end
            ≡ ok (bs, finished))
          × IsCached bs (heights start end)
    get_block_range-IsCached start end s a b x y =
        let (bs, sends, k) = loop-IsCached start end (width start end) 0 s a b x y (omega arith) in
        (
          bs,
          range_width unmarshal sha256 (λ h. (c, replies h)) (λ _. false) start end ∙ sends,
          subst (IsCached bs) (rounds-heights start end) k,
        )
