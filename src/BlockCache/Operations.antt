-- ===== src/BlockCache/Operations.antt =====
-- common/cache.go: the operations of the block cache. `marshal` and `unmarshal` are those of the
-- protocol buffer library. The fuel is for `setLatestHash`.
use lightwalletd.Common.{
  ℕ, ◌+◌, ◌-◌, ◌%◌, ◌^◌, List, [], ◌∷◌, ◌++◌, Bool, not, ◌||◌, Option, none, some, Error, new,
  Result, ok, err, ltb, leb, ◌==◌, if◌then◌else◌, length,
}
use lightwalletd.Common.Int.{ℤ, pos, negsuc}
use lightwalletd.Bytestring.Words.{le_bytes}
use lightwalletd.Bytestring.{le_loop}
use lightwalletd.Block.{CompactBlock}
use lightwalletd.BlockCache.Checksum.{checksum}
use lightwalletd.BlockCache.Defs.{
  Halt, fatal, panic, BlockCache, copy_into, raised, cut_files, read_block, set_latest_hash,
}

abbrev pub last_of : List ℕ → Option ℕ
last_of [] = none
last_of (x ∷ []) = some x
last_of (x ∷ y ∷ ys) = last_of (y ∷ ys)

-- The hash that `Add` leaves in `latestHash`.
abbrev pub hash_over : Option (List ℕ) → List ℕ → List ℕ
hash_over none hash = hash
hash_over (some old) hash = copy_into old hash

-- `offset := c.starts[len(c.starts)-1]`, and the cache with the block behind it.
abbrev pub append_at : BlockCache → CompactBlock → List ℕ → Option ℕ → Result Halt BlockCache
append_at c block data' none = err panic
append_at c block data' (some offset) = ok (record {
  lengths_file = c.lengths_file ++ le_bytes 4 (length data' % 2 ^ 32);
  blocks_file = c.blocks_file ++ (checksum c.next_block data' ++ data');
  starts = c.starts ++ (offset + (length data' + 8)) ∷ [];
  first_block = c.first_block;
  next_block = c.next_block + 1;
  latest_hash = some (hash_over c.latest_hash block.hash);
})

-- What `Add` does once the height is the next and the block marshalled.
unfoldable pub append_block : BlockCache → CompactBlock → List ℕ → Result Halt BlockCache
append_block c block data' = append_at c block data' (last_of c.starts)

module _ (marshal : CompactBlock → Option (List ℕ)) where
  -- The error that is returned, if any, and the cache.
  abbrev pub appended :
      BlockCache → Result Halt BlockCache → Result Halt (Option Error × BlockCache)
  appended c (err e) = err e
  appended c (ok c') = ok (none, c')

  abbrev pub add_marshalled :
      BlockCache → CompactBlock → Option (List ℕ) → Result Halt (Option Error × BlockCache)
  add_marshalled c block none = ok (some (new "marshal"), c)
  add_marshalled c block (some data') = appended c (append_block c block data')

  unfoldable pub add : BlockCache → ℕ → CompactBlock → Result Halt (Option Error × BlockCache)
  unfolding append_block
  add c height block =
      if ltb c.next_block height
      then ok (none, c)
      else if ltb height c.first_block
      then err (fatal "cache.Add height below Sapling")
      else if ltb height c.next_block
      then err (fatal "cache.Add height going backwards")
      else if not (block.height == height)
      then err (fatal "cache.Add wrong height")
      else add_marshalled c block (marshal block)

-- The entries of the lengths file, four bytes each, without a partial one at its end.
unfoldable pub entry_lengths : List ℕ → List ℕ
unfolding le_loop
entry_lengths (b0 ∷ b1 ∷ b2 ∷ b3 ∷ bs) = le_loop 32 (b0 ∷ b1 ∷ b2 ∷ b3 ∷ []) ∷ entry_lengths bs
entry_lengths (b0 ∷ b1 ∷ b2 ∷ []) = []
entry_lengths (b0 ∷ b1 ∷ []) = []
entry_lengths (b0 ∷ []) = []
entry_lengths [] = []

module _ (unmarshal : List ℕ → Option CompactBlock) where
  abbrev pub settled : ℕ → Option BlockCache → Result Halt BlockCache
  settled fuel none = err panic
  settled fuel (some c) = set_latest_hash unmarshal fuel c

  unfoldable pub set_db_files : ℕ → BlockCache → ℕ → Result Halt BlockCache
  unfolding cut_files set_latest_hash
  set_db_files fuel c height =
      if leb height c.next_block then settled fuel (cut_files c height) else ok c

  unfoldable pub recover_from_corruption : ℕ → BlockCache → ℕ → Result Halt BlockCache
  unfolding set_db_files
  recover_from_corruption fuel c height = set_db_files fuel c height

  unfoldable pub reorg : ℕ → BlockCache → ℕ → Result Halt BlockCache
  unfolding cut_files set_latest_hash
  reorg fuel c height =
      let height = raised c height in
      if leb c.next_block height then ok c else settled fuel (cut_files c height)

  -- The block, or nil; beside nil, the height that a goroutine then hands to
  -- `recoverFromCorruption` if the block should have been there.
  abbrev pub or_recover : ℕ → Option CompactBlock → Option CompactBlock × Option ℕ
  or_recover height none = (none, some (height - 10000))
  or_recover height (some block) = (some block, none)

  abbrev pub looked_up :
      ℕ → Result Halt (Option CompactBlock) → Result Halt (Option CompactBlock × Option ℕ)
  looked_up height (err e) = err e
  looked_up height (ok block) = ok (or_recover height block)

  unfoldable pub get : BlockCache → ℕ → Result Halt (Option CompactBlock × Option ℕ)
  unfolding read_block
  get c height =
      if ltb height c.first_block || leb c.next_block height
      then ok (none, none)
      else looked_up height (read_block unmarshal c height)

  abbrev pub with_start : BlockCache → ℕ → BlockCache
  with_start c offset = record c { starts = c.starts ++ offset ∷ [] }

  -- What follows the read of the block at `nextBlock`; `next` is the rest of the loop.
  abbrev pub loaded :
      ℕ
      → BlockCache
      → Result Halt BlockCache
      → Result Halt (Option CompactBlock)
      → Result Halt BlockCache
  loaded fuel c next (err e) = err e
  loaded fuel c next (ok none) = recover_from_corruption fuel c c.next_block
  loaded fuel c next (ok (some block)) = next

  -- The loop of `NewBlockCache` over the entries that are left, with `offset`.
  unfoldable pub load_entries : ℕ → List ℕ → ℕ → BlockCache → Result Halt BlockCache
  unfolding recover_from_corruption read_block
  load_entries fuel [] offset c = ok c
  load_entries fuel (n ∷ ns) offset c =
      let c' = with_start c (offset + (n + 8)) in
      let next =
        load_entries fuel ns (offset + (n + 8)) (record c' { next_block = c.next_block + 1 }) in
      if ltb n 74 || ltb 4000000 n
      then recover_from_corruption fuel c c.next_block
      else loaded fuel c' next (read_block unmarshal c' c.next_block)

  abbrev pub opened : List ℕ → List ℕ → ℕ → BlockCache
  opened lengths blocks start_height = record {
    lengths_file = lengths;
    blocks_file = blocks;
    starts = 0 ∷ [];
    first_block = start_height;
    next_block = start_height;
    latest_hash = none;
  }

  -- `c.setDbFiles(c.nextBlock)` behind the loop.
  abbrev pub settled_at_next : ℕ → Result Halt BlockCache → Result Halt BlockCache
  settled_at_next fuel (err e) = err e
  settled_at_next fuel (ok c) = set_db_files fuel c c.next_block

  -- On the two files as they are found; `redownload` empties them first.
  unfoldable pub new_block_cache : ℕ → List ℕ → List ℕ → ℕ → Bool → Result Halt BlockCache
  unfolding entry_lengths load_entries set_db_files
  new_block_cache fuel lengths blocks start_height redownload =
      let lengths = if redownload then [] else lengths in
      let blocks = if redownload then [] else blocks in
      settled_at_next fuel
        (load_entries fuel (entry_lengths lengths) 0 (opened lengths blocks start_height))

  unfoldable pub reset : ℕ → BlockCache → ℕ → Result Halt BlockCache
  unfolding set_db_files
  reset fuel c start_height = elim (set_db_files fuel c c.first_block) [
    | err e ↦ err e
    | ok c' ↦ ok (record c' { first_block = start_height; next_block = start_height })
  ]

unfoldable pub get_latest_height : BlockCache → ℤ
get_latest_height c = if c.first_block == c.next_block then negsuc 0 else pos (c.next_block - 1)
