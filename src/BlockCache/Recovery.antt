-- ===== src/BlockCache/Recovery.antt =====
-- Recovery from corruption: on any contents of the files, loading and cutting end, and what they
-- leave has an index in order and a last block that can be read.
use mathlib.Core.Option.{some-injective}
use lightwalletd.Common.{
  ℕ, zero, suc, ◌+◌, ◌-◌, ◌*◌, ◌≤◌, ◌<◌, List, [], ◌∷◌, ◌++◌, ◌≡◌, refl, ap, some, length, take,
  length-take, get_elem?, arith,
}
use lightwalletd.BlockCache.Defs.{BlockCache, truncate, raised, cut_with, cut_files}
use lightwalletd.BlockCache.Operations.{last_of}
use lightwalletd.BlockCache.Lookup.{at_index}

-- Each block takes at least the eight bytes of its checksum.
abbrev pub Ascending : List ℕ → Type 0
Ascending [] = Unit {0}
Ascending (x ∷ []) = Unit {0}
Ascending (x ∷ y ∷ ys) = (x + 8 ≤ y) × Ascending (y ∷ ys)

-- The index reaches the next height.
pub record IsOrdered (c : BlockCache) : Type 0 where
  pub order : c.first_block ≤ c.next_block
  pub reach : c.next_block - c.first_block < length c.starts
  pub gaps : Ascending c.starts

-- The index has the offset of each block and of the next, and no other.
pub record IsIndexed (c : BlockCache) : Type 0 where
  pub ordered : IsOrdered c
  pub count : length c.starts ≡ suc (c.next_block - c.first_block)

pub gap_at :
    (xs : List ℕ) (i : ℕ)
    → Ascending xs
    → suc i < length xs
    → (x : ℕ) × (y : ℕ) × (get_elem? xs i ≡ some x) × (get_elem? xs (suc i) ≡ some y) × (x + 8 ≤ y)
gap_at [] i a h = absurd (omega arith)
gap_at (x ∷ []) i a h = absurd (omega arith)
gap_at (x ∷ y ∷ ys) zero a h = (x, y, refl, refl, a.0)
gap_at (x ∷ y ∷ ys) (suc i) a h = gap_at (y ∷ ys) i a.1 (omega arith)

Ascending-take : (n : ℕ) (xs : List ℕ) → Ascending xs → Ascending (take n xs)
Ascending-take zero xs a = tt
Ascending-take (suc n) [] a = tt
Ascending-take (suc zero) (x ∷ []) a = tt
Ascending-take (suc (suc n)) (x ∷ []) a = tt
Ascending-take (suc zero) (x ∷ y ∷ ys) a = tt
Ascending-take (suc (suc n)) (x ∷ y ∷ ys) a = (a.0, Ascending-take (suc n) (y ∷ ys) a.1)

pub Ascending-snoc :
    (xs : List ℕ) (offset n : ℕ)
    → Ascending xs
    → last_of xs ≡ some offset
    → Ascending (xs ++ (offset + (n + 8)) ∷ [])
Ascending-snoc [] offset n a h = tt
Ascending-snoc (x ∷ []) offset n a h = (rw (some-injective x offset h) (omega arith), tt)
Ascending-snoc (x ∷ y ∷ ys) offset n a h = (a.0, Ascending-snoc (y ∷ ys) offset n a.1 h)

length_taken : (n : ℕ) (xs : List ℕ) → n < length xs → length (take (n + 1) xs) ≡ suc n
length_taken n xs h = omega (arith, length-take (n + 1) xs)

pub last_of-snoc : (xs : List ℕ) (y : ℕ) → last_of (xs ++ y ∷ []) ≡ some y
last_of-snoc [] y = refl
last_of-snoc (x ∷ []) y = refl
last_of-snoc (x ∷ z ∷ xs) y = last_of-snoc (z ∷ xs) y

-- `setDbFiles` finds the offset to cut at, and leaves an index that ends there.
pub cut_files-IsIndexed :
    (c : BlockCache) (height : ℕ)
    → IsOrdered c
    → height ≤ c.next_block
    → (c' : BlockCache) × (cut_files c height ≡ some c')
      × IsIndexed c'
      × (c'.first_block ≡ c.first_block)
      × (c'.next_block ≡ raised c height)
unfolding cut_files
cut_files-IsIndexed c height o h =
    let k = raised c height - c.first_block in
    let bounds = raised_bounds c height o.order h in
    let (start, found) = at_index c.starts k (omega (arith, o.reach, bounds.0, bounds.1)) in
    let taken = length_taken k c.starts (omega (arith, o.reach, bounds.0, bounds.1)) in
    (
      record c {
        lengths_file = truncate (k * 4) c.lengths_file;
        blocks_file = truncate start c.blocks_file;
        starts = take (k + 1) c.starts;
        next_block = raised c height;
      },
      ap (cut_with c (raised c height)) found,
      record {
        ordered = record {
          order = bounds.0;
          reach = omega (arith, taken);
          gaps = Ascending-take (k + 1) c.starts o.gaps;
        };
        count = taken;
      },
      refl,
      refl,
    )
  where
    raised_bounds :
        (c : BlockCache) (height : ℕ)
        → c.first_block ≤ c.next_block
        → height ≤ c.next_block
        → (c.first_block ≤ raised c height) × (raised c height ≤ c.next_block)
    raised_bounds c height h k = ground arith
