-- ===== src/BlockCache/Defs.antt =====
-- common/cache.go: the block cache. The two files are their bytes; the operating system's reads,
-- writes and truncations succeed. A height is a natural number: `height - 10000` stops at 0, which
-- `setDbFiles` raises to the first height as it does a negative one. The copies of corrupted files
-- are not kept. The lock makes each operation one step.
use lightwalletd.Common.{
  ℕ, zero, suc, ◌+◌, ◌-◌, ◌*◌, List, [], ◌∷◌, ◌++◌, Bool, true, false, not, ◌&&◌, Option, none,
  some, String, Result, ok, err, ltb, ◌==◌, if◌then◌else◌, length, take, drop, replicate, get_elem?,
}
use lightwalletd.Block.{CompactBlock}
use lightwalletd.BlockCache.Checksum.{checksum}

-- How the process ends: `Log.Fatal`, or an index out of range. `no_fuel` is no end of the program.
pub data Halt : Type 0 where
  fatal : String → Halt
  panic : Halt
  no_fuel : Halt

pub record BlockCache : Type 0 where
  pub lengths_file : List ℕ
  pub blocks_file : List ℕ
  pub starts : List ℕ
  pub first_block : ℕ
  pub next_block : ℕ
  pub latest_hash : Option (List ℕ)

abbrev pub same_bytes : List ℕ → List ℕ → Bool
same_bytes [] [] = true
same_bytes [] (b ∷ bs) = false
same_bytes (a ∷ as') [] = false
same_bytes (a ∷ as') (b ∷ bs) = a == b && same_bytes as' bs

unfoldable pub hash_mismatch : BlockCache → List ℕ → Bool
hash_mismatch c prevhash = elim c.latest_hash [
  | none ↦ false
  | some h ↦ not (same_bytes h prevhash)
]

-- `Truncate`: a file that is shorter is filled up with zeros.
abbrev pub truncate : ℕ → List ℕ → List ℕ
truncate size file = take size file ++ replicate (size - length file) 0

-- `copy(dst, src)`
abbrev pub copy_into : List ℕ → List ℕ → List ℕ
copy_into dst src = take (length dst) src ++ drop (length src) dst

-- The first offset past the given one, if there is one.
abbrev pub span_of : Option ℕ → Option ℕ → Option (ℕ × ℕ)
span_of none end = none
span_of (some start) none = none
span_of (some start) (some end) = some (start, end)

-- `starts` of the block and of what follows it.
abbrev pub span : BlockCache → ℕ → Option (ℕ × ℕ)
span c height =
    let index = height - c.first_block in
    span_of (get_elem? c.starts index) (get_elem? c.starts (index + 1))

-- No height below the first.
abbrev pub raised : BlockCache → ℕ → ℕ
raised c height = if ltb height c.first_block then c.first_block else height

abbrev pub cut_with : BlockCache → ℕ → Option ℕ → Option BlockCache
cut_with c height none = none
cut_with c height (some start) = some (record c {
  lengths_file = truncate ((height - c.first_block) * 4) c.lengths_file;
  blocks_file = truncate start c.blocks_file;
  starts = take (height - c.first_block + 1) c.starts;
  next_block = height;
})

-- The files cut behind the height, and the height made the next; the part of `setDbFiles` in front
-- of `setLatestHash`, on a height that is at most the next. `none` is an index out of range.
unfoldable pub cut_files : BlockCache → ℕ → Option BlockCache
cut_files c height =
    let height = raised c height in cut_with c height (get_elem? c.starts (height - c.first_block))

module _ (unmarshal : List ℕ → Option CompactBlock) where
  -- The bytes behind the checksum, if they are what was written for this height; `none` is nil.
  unfoldable pub block_in : ℕ → List ℕ → Option CompactBlock
  unfolding checksum
  block_in height b =
      if same_bytes (checksum height (drop 8 b)) (take 8 b)
      then elim (unmarshal (drop 8 b)) [
        | none ↦ none
        | some block ↦ if block.height == height then some block else none
      ]
      else none

  abbrev pub read_span : BlockCache → ℕ → Option (ℕ × ℕ) → Result Halt (Option CompactBlock)
  read_span c height none = err panic
  read_span c height (some (start, end)) =
      if ltb end start
      then err panic
      else if ltb (length c.blocks_file) end
      then ok none
      else if ltb end (start + 8)
      then err panic
      else ok (block_in height (take (end - start) (drop start c.blocks_file)))

  unfoldable pub read_block : BlockCache → ℕ → Result Halt (Option CompactBlock)
  unfolding block_in
  read_block c height = read_span c height (span c height)

  -- `setLatestHash` and, where it calls itself through `recoverFromCorruption` and `setDbFiles`,
  -- these two. Each such round lowers the next height.
  unfoldable pub set_latest_hash : ℕ → BlockCache → Result Halt BlockCache
  unfolding read_block cut_files
  set_latest_hash zero c = err no_fuel
  set_latest_hash (suc fuel) c =
      let c' = record c { latest_hash = none } in
      let last = read_block c' (c.next_block - 1) in
      if ltb c.first_block c.next_block
      then elim last [
        | err e ↦ err e
        | ok (some block) ↦ ok (record c' { latest_hash = some block.hash })
        | ok none ↦ elim (cut_files c' (c.next_block - 10000)) [
          | none ↦ err panic
          | some c'' ↦ set_latest_hash fuel c''
        ]
      ]
      else ok c'
