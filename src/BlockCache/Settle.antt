-- ===== src/BlockCache/Settle.antt =====
-- Loading and recovering end on any contents of the files.
use lightwalletd.Common.{
  ℕ, zero, suc, ◌+◌, ◌-◌, ◌≤◌, ◌<◌, List, ◌≡◌, ◌⊎◌, refl, sym, ◌∙◌, Option, none, some, ltb, length,
  take, drop, arith, ok, le→ltb, lt→ltb, ltb→lt, ltb→le, Bool-cases, inl, inr,
}
use lightwalletd.Block.{CompactBlock}
use lightwalletd.BlockCache.Defs.{
  BlockCache, raised, cut_files, span, block_in, read_span, read_block, set_latest_hash,
}
use lightwalletd.BlockCache.Holds.{plus_one}
use lightwalletd.BlockCache.Cut.{set_latest_hash_read}
use lightwalletd.BlockCache.Recovery.{Ascending, IsIndexed, gap_at, cut_files-IsIndexed}

-- The index does not depend on the hash.
with_hash :
    (c : BlockCache) (hash : Option (List ℕ))
    → IsIndexed c
    → IsIndexed (record c { latest_hash = hash })
with_hash c hash s = record {
  ordered = record { order = s.ordered.order; reach = s.ordered.reach; gaps = s.ordered.gaps };
  count = s.count;
}

raised_lower :
    (c : BlockCache) (height : ℕ)
    → c.first_block < c.next_block
    → height < c.next_block
    → raised c height < c.next_block
raised_lower c height h k = ground arith

module _ (unmarshal : List ℕ → Option CompactBlock) where
  read_span-ends :
      (c : BlockCache) (height start end : ℕ)
      → start + 8 ≤ end
      → (o : Option CompactBlock) × (read_span unmarshal c height (some (start, end)) ≡ ok o)
  read_span-ends c height start end h = elim (Bool-cases (ltb (length c.blocks_file) end)) [
    | inl l ↦ (none, rw (le→ltb end start (omega arith), l) refl)
    | inr l ↦ (
      block_in unmarshal height (take (end - start) (drop start c.blocks_file)),
      rw (le→ltb end start (omega arith), l, le→ltb end (start + 8) h) refl,
    )
  ]

  -- No read of a block that the index covers halts.
  pub read_block-ends :
      (c : BlockCache) (height : ℕ)
      → Ascending c.starts
      → suc (height - c.first_block) < length c.starts
      → (o : Option CompactBlock) × (read_block unmarshal c height ≡ ok o)
  unfolding read_block
  read_block-ends c height a h =
      let (x, y, at_x, at_y, gap) = gap_at c.starts (height - c.first_block) a h in
      let (o, done) = read_span-ends c height x y gap in
      (o, rw (at_x, plus_one (height - c.first_block), at_y) done)

  -- What `setLatestHash` leaves: an empty cache, or a last block that can be read, with its hash.
  abbrev pub IsTipped : BlockCache → Type 0
  IsTipped c =
      ((c.next_block ≡ c.first_block) × (c.latest_hash ≡ none))
      ⊎ ((block : CompactBlock) × (read_block unmarshal c (c.next_block - 1) ≡ ok (some block))
          × (c.latest_hash ≡ some block.hash))

  pub record IsSettled (c c' : BlockCache) : Type 0 where
    pub indexed : IsIndexed c'
    pub tipped : IsTipped c'
    pub first : c'.first_block ≡ c.first_block
    pub next : c'.next_block ≤ c.next_block

  read_span-hash :
      (c : BlockCache) (height : ℕ) (hash : Option (List ℕ)) (where_ : Option (ℕ × ℕ))
      → read_span unmarshal (record c { latest_hash = hash }) height where_
        ≡ read_span unmarshal c height where_
  read_span-hash c height hash none = refl
  read_span-hash c height hash (some p) = refl

  read_block-hash :
      (c : BlockCache) (height : ℕ) (hash : Option (List ℕ))
      → read_block unmarshal (record c { latest_hash = hash }) height
        ≡ read_block unmarshal c height
  unfolding read_block
  read_block-hash c height hash = read_span-hash c height hash (span c height)

  set_latest_hash_empty :
      (fuel : ℕ) (c : BlockCache)
      → c.next_block ≤ c.first_block
      → set_latest_hash unmarshal (suc fuel) c ≡ ok (record c { latest_hash = none })
  unfolding set_latest_hash
  set_latest_hash_empty fuel c h = rw (le→ltb c.first_block c.next_block h) refl

  set_latest_hash_lost :
      (fuel : ℕ) (c c' : BlockCache)
      → c.first_block < c.next_block
      → read_block unmarshal (record c { latest_hash = none }) (c.next_block - 1) ≡ ok none
      → cut_files (record c { latest_hash = none }) (c.next_block - 10000) ≡ some c'
      → set_latest_hash unmarshal (suc fuel) c ≡ set_latest_hash unmarshal fuel c'
  unfolding set_latest_hash
  set_latest_hash_lost fuel c c' h r e = rw (lt→ltb c.first_block c.next_block h, r, e) refl

  abbrev Ends : ℕ → BlockCache → Type 0
  Ends fuel c = (c' : BlockCache) × (set_latest_hash unmarshal fuel c ≡ ok c') × IsSettled c c'

  -- The round, by what the read of the last block returns.
  round-Ends :
      (fuel : ℕ) (c : BlockCache)
      → ((c' : BlockCache) → IsIndexed c' → c'.next_block - c'.first_block < fuel → Ends fuel c')
      → IsIndexed c
      → c.first_block < c.next_block
      → c.next_block - c.first_block < suc fuel
      → (o : Option CompactBlock)
      → read_block unmarshal (record c { latest_hash = none }) (c.next_block - 1) ≡ ok o
      → Ends (suc fuel) c
  round-Ends fuel c again s l h (some block) r = (
    record c { latest_hash = some block.hash },
    set_latest_hash_read unmarshal fuel c block l r,
    record {
      indexed = with_hash c (some block.hash) s;
      tipped = inr (
        block,
        read_block-hash c (c.next_block - 1) (some block.hash)
            ∙ sym (read_block-hash c (c.next_block - 1) none)
            ∙ r,
        refl,
      );
      first = refl;
      next = omega arith;
    },
  )
  round-Ends fuel c again s l h none r =
      let c₀ = record c { latest_hash = none } in
      let (c', cut, indexed, first, next) =
        cut_files-IsIndexed c₀ (c.next_block - 10000) (with_hash c none s).ordered (omega arith) in
      let lower = raised_lower c (c.next_block - 10000) l (omega arith) in
      let (c'', done, settled') = again c' indexed (omega (arith, first, next, lower)) in
      (
        c'',
        set_latest_hash_lost fuel c c' l r cut ∙ done,
        record {
          indexed = settled'.indexed;
          tipped = settled'.tipped;
          first = settled'.first ∙ first;
          next = omega (arith, settled'.next, next, lower);
        },
      )

  -- `setLatestHash` ends: each block that cannot be read costs at most 10000 others.
  pub set_latest_hash-ends :
      (fuel : ℕ) (c : BlockCache)
      → IsIndexed c
      → c.next_block - c.first_block < fuel
      → (c' : BlockCache) × (set_latest_hash unmarshal fuel c ≡ ok c') × IsSettled c c'
  set_latest_hash-ends zero c s h = absurd (omega arith)
  set_latest_hash-ends (suc fuel) c s h = elim (Bool-cases (ltb c.first_block c.next_block)) [
    | inr l ↦ (
      record c { latest_hash = none },
      set_latest_hash_empty fuel c (ltb→le c.first_block c.next_block l),
      record {
        indexed = with_hash c none s;
        tipped = inl (omega (arith, s.ordered.order, ltb→le c.first_block c.next_block l), refl);
        first = refl;
        next = omega arith;
      },
    )
    | inl l ↦
        let below = ltb→lt c.first_block c.next_block l in
        let (o, read) =
          read_block-ends (record c { latest_hash = none }) (c.next_block - 1) s.ordered.gaps
            (omega (arith, s.count, below)) in
        round-Ends fuel c (set_latest_hash-ends fuel) s below h o read
  ]
