-- ===== src/BlockCache/Load.antt =====
-- `NewBlockCache` on any files.
use lightwalletd.Common.{
  ℕ, ◌+◌, ◌-◌, ◌≤◌, ◌<◌, List, [], ◌∷◌, ◌++◌, ◌≡◌, refl, ap, ◌∙◌, Option, none, some, Bool, true,
  false, ◌||◌, ltb, length, length-append, arith, ok, Bool-cases, inl, inr,
}
use lightwalletd.Block.{CompactBlock}
use lightwalletd.BlockCache.Defs.{BlockCache, raised, read_block}
use lightwalletd.BlockCache.Operations.{
  last_of, set_db_files, recover_from_corruption, with_start, entry_lengths, load_entries, opened,
  settled_at_next, new_block_cache,
}
use lightwalletd.BlockCache.Recovery.{
  Ascending, IsOrdered, IsIndexed, Ascending-snoc, last_of-snoc, cut_files-IsIndexed,
}
use lightwalletd.BlockCache.Settle.{IsTipped, IsSettled, read_block-ends, set_latest_hash-ends}
use lightwalletd.BlockCache.Restart.{set_db_files_cut}

raised_next : (c : BlockCache) → c.first_block ≤ c.next_block → raised c c.next_block ≡ c.next_block
raised_next c h = ground arith

length-entry_lengths : (bs : List ℕ) → length (entry_lengths bs) ≤ length bs
unfolding entry_lengths
length-entry_lengths (a ∷ b ∷ c ∷ d ∷ bs) = omega (arith, length-entry_lengths bs)
length-entry_lengths (a ∷ b ∷ c ∷ []) = omega arith
length-entry_lengths (a ∷ b ∷ []) = omega arith
length-entry_lengths (a ∷ []) = omega arith
length-entry_lengths [] = omega arith

module _ (unmarshal : List ℕ → Option CompactBlock) where
  -- `setDbFiles` at the next height ends, on any contents.
  set_db_files-ends :
      (fuel : ℕ) (c : BlockCache)
      → IsOrdered c
      → c.next_block - c.first_block < fuel
      → (c' : BlockCache) × (set_db_files unmarshal fuel c c.next_block ≡ ok c')
        × IsSettled unmarshal c c'
  set_db_files-ends fuel c o h =
      let (c₁, cut, indexed, first, next) = cut_files-IsIndexed c c.next_block o (omega arith) in
      let same = raised_next c o.order in
      let (c', done, s) =
        set_latest_hash-ends unmarshal fuel c₁ indexed (omega (arith, first, next, same)) in
      (
        c',
        set_db_files_cut unmarshal fuel c c₁ c' cut done,
        record {
          indexed = s.indexed;
          tipped = s.tipped;
          first = s.first ∙ first;
          next = omega (arith, s.next, next, same);
        },
      )

  abbrev Loads : ℕ → List ℕ → ℕ → BlockCache → Type 0
  Loads fuel ns offset c =
      (c' : BlockCache) × (load_entries unmarshal fuel ns offset c ≡ ok c')
      × IsIndexed c'
      × (c'.first_block ≡ c.first_block)
      × (c'.next_block ≤ c.next_block + length ns)

  -- The round on an entry of an admitted length, by what the read of its block returns.
  entry_ends :
      (fuel n : ℕ) (ns : List ℕ) (offset : ℕ) (c : BlockCache)
      → IsIndexed c
      → Ascending (c.starts ++ (offset + (n + 8)) ∷ [])
      → (c.next_block - c.first_block) + length (n ∷ ns) < fuel
      → (ltb n 74 || ltb 4000000 n) ≡ false
      → Loads fuel ns
          (offset + (n + 8))
          (record c { starts = c.starts ++ (offset + (n + 8)) ∷ []; next_block = c.next_block + 1 })
      → (o : Option CompactBlock)
      → read_block unmarshal (with_start unmarshal c (offset + (n + 8))) c.next_block ≡ ok o
      → Loads fuel (n ∷ ns) offset c
  unfolding load_entries recover_from_corruption
  entry_ends fuel n ns offset c s a h good rest (some block) r =
      let (c', done, indexed, first, next) = rest in
      (c', rw (good, r) done, indexed, first, omega (arith, next))
  entry_ends fuel n ns offset c s a h good rest none r =
      let more = length-append c.starts ((offset + (n + 8)) ∷ []) in
      let (c', done, k) =
        set_db_files-ends fuel (with_start unmarshal c (offset + (n + 8)))
          (record { order = s.ordered.order; reach = omega (arith, s.count, more); gaps = a })
          (omega arith) in
      (c', rw (good, r) done, k.indexed, k.first, omega (arith, k.next))

  load_entries_bad :
      (fuel n : ℕ) (ns : List ℕ) (offset : ℕ) (c : BlockCache)
      → IsIndexed c
      → (c.next_block - c.first_block) + length (n ∷ ns) < fuel
      → (ltb n 74 || ltb 4000000 n) ≡ true
      → Loads fuel (n ∷ ns) offset c
  unfolding load_entries recover_from_corruption
  load_entries_bad fuel n ns offset c s h bad =
      let (c', done, k) = set_db_files-ends fuel c s.ordered (omega arith) in
      (c', rw bad done, k.indexed, k.first, omega (arith, k.next))

  -- The loop ends with an index in order, whatever the entries and the blocks file are.
  load_entries-ends :
      (fuel : ℕ) (ns : List ℕ) (offset : ℕ) (c : BlockCache)
      → IsIndexed c
      → last_of c.starts ≡ some offset
      → (c.next_block - c.first_block) + length ns < fuel
      → Loads fuel ns offset c
  load_entries-ends fuel [] offset c s l h = (c, unfold load_entries in refl, s, refl, omega arith)
  load_entries-ends fuel (n ∷ ns) offset c s l h = elim (Bool-cases (ltb n 74 || ltb 4000000 n)) [
    | inl bad ↦ load_entries_bad fuel n ns offset c s h bad
    | inr good ↦
        let start = offset + (n + 8) in
        let more = length-append c.starts (start ∷ []) in
        let ascending = Ascending-snoc c.starts offset n s.ordered.gaps l in
        let (o, read) =
          read_block-ends unmarshal (with_start unmarshal c start) c.next_block ascending
            (omega (arith, s.count, more)) in
        let next = record c { starts = c.starts ++ start ∷ []; next_block = c.next_block + 1 } in
        let rest =
          load_entries-ends fuel ns start next
            (record {
              ordered = record {
                order = omega (arith, s.ordered.order);
                reach = omega (arith, s.count, more);
                gaps = ascending;
              };
              count = omega (arith, s.count, more, s.ordered.order);
            })
            (last_of-snoc c.starts start) (omega (arith, s.ordered.order)) in
        entry_ends fuel n ns offset c s ascending h good rest o read
  ]

  new_block_cache_ends :
      (fuel : ℕ) (lengths blocks : List ℕ) (start : ℕ)
      → length lengths < fuel
      → (c' : BlockCache) × (settled_at_next unmarshal fuel (
            load_entries unmarshal fuel
              (entry_lengths lengths)
              0
              (opened unmarshal lengths blocks start))
          ≡ ok c')
        × IsIndexed c'
        × IsTipped unmarshal c'
        × (c'.first_block ≡ start)
  new_block_cache_ends fuel lengths blocks start h =
      let fresh = opened unmarshal lengths blocks start in
      let few = length-entry_lengths lengths in
      let (c, loads, indexed, first, next) =
        load_entries-ends fuel (entry_lengths lengths) 0 fresh
          (record {
            ordered = record { order = omega arith; reach = omega arith; gaps = tt };
            count = omega arith;
          })
          refl (omega arith) in
      let (c', done, k) = set_db_files-ends fuel c indexed.ordered (omega arith) in
      (c', ap (settled_at_next unmarshal fuel) loads ∙ done, k.indexed, k.tipped, k.first ∙ first)

  -- `NewBlockCache` ends on any contents of the two files, without a panic: the cache that it makes
  -- begins at the given height, its index has an offset for each block and no other, and it is empty
  -- or its last block can be read and its hash is the latest. Fuel past the length of the lengths
  -- file is enough.
  pub new_block_cache-recovers :
      (fuel : ℕ) (lengths blocks : List ℕ) (start : ℕ) (redownload : Bool)
      → length lengths < fuel
      → (c' : BlockCache) × (new_block_cache unmarshal fuel lengths blocks start redownload ≡ ok c')
        × IsIndexed c'
        × IsTipped unmarshal c'
        × (c'.first_block ≡ start)
  unfolding new_block_cache
  new_block_cache-recovers fuel lengths blocks start false h =
      new_block_cache_ends fuel lengths blocks start h
  new_block_cache-recovers fuel lengths blocks start true h =
      new_block_cache_ends fuel [] [] start (omega arith)
