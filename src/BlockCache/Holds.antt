-- ===== src/BlockCache/Holds.antt =====
-- A cache that holds a list of blocks, and what its operations read from the files.
use mathlib.Core.Option.{some-injective}
use mathlib.Core.Path.{subst}
use native.Mathlib.Nat.{add-zero, zero-add}
use lightwalletd.Common.{
  and_true, ==_iff, ◌==◌, ℕ, zero, suc, ◌+◌, ◌-◌, ◌≤◌, ◌<◌, List, [], ◌∷◌, ◌++◌, ◌≡◌, refl, sym, ap,
  ◌∙◌, Option, some, true, length, take, drop, take_front, drop_front, drop_past, get_elem?, arith,
  ok, le→ltb,
}
use lightwalletd.Block.{CompactBlock}
use lightwalletd.BlockCache.Checksum.{checksum, length-checksum}
use lightwalletd.BlockCache.Defs.{BlockCache, same_bytes, span, block_in, read_span, read_block}
use lightwalletd.BlockCache.Frames.{
  Entry, frame, blocks_bytes, lengths_bytes, offsets, size, length-frame, length-blocks_bytes,
  get_elem?-offsets,
}

pub same_bytes_refl : (bs : List ℕ) → same_bytes bs bs ≡ true
same_bytes_refl [] = refl
same_bytes_refl (b ∷ bs) = ground (arith, same_bytes_refl bs)

pub same_bytes_eq : (as' bs : List ℕ) → same_bytes as' bs ≡ true → as' ≡ bs
same_bytes_eq [] [] h = refl
same_bytes_eq [] (b ∷ bs) h = absurd (ground arith)
same_bytes_eq (a ∷ as') [] h = absurd (ground arith)
same_bytes_eq (a ∷ as') (b ∷ bs) h =
    let (first, rest) = and_true (a == b) (same_bytes as' bs) h in
    λ i. (==_iff a b).0 first i ∷ same_bytes_eq as' bs rest i

pub size-take-suc :
    (es : List Entry) (i : ℕ) (e : Entry)
    → get_elem? es i ≡ some e
    → size (take (suc i) es) ≡ size (take i es) + (length e.1 + 8)
size-take-suc [] i e h = absurd (ground arith)
size-take-suc (f ∷ es) zero e h =
    subst (λ x. (length f.1 + 8) + 0 ≡ 0 + (length x.1 + 8)) (some-injective f e h) (omega arith)
size-take-suc (f ∷ es) (suc i) e h = omega (arith, size-take-suc es i e h)

pub get_elem?-lt : (es : List Entry) (i : ℕ) (e : Entry) → get_elem? es i ≡ some e → i < length es
get_elem?-lt [] i e h = absurd (ground arith)
get_elem?-lt (f ∷ es) zero e h = omega arith
get_elem?-lt (f ∷ es) (suc i) e h = omega (arith, get_elem?-lt es i e h)

next_height : (h i : ℕ) → (h + 1) + i ≡ h + suc i
next_height h i = omega arith

pub add-sub_left : (a b : ℕ) → (a + b) - a ≡ b
add-sub_left a b = omega arith

pub plus_one : (i : ℕ) → i + 1 ≡ suc i
plus_one i = omega arith

-- The block's frame stands at its offset.
pub frame_at :
    (h : ℕ) (es : List Entry) (i : ℕ) (e : Entry)
    → get_elem? es i ≡ some e
    → take (length e.1 + 8) (drop (size (take i es)) (blocks_bytes h es)) ≡ frame (h + i) e.1
frame_at h [] i e k = absurd (ground arith)
frame_at h (f ∷ es) zero e k =
    subst (λ x. take (length x.1 + 8) (frame h f.1 ++ blocks_bytes (h + 1) es) ≡ frame (h + 0) x.1)
      (some-injective f e k)
      (rw (← length-frame h f.1, add-zero h) (take_front (frame h f.1) (blocks_bytes (h + 1) es)))
frame_at h (f ∷ es) (suc i) e k =
    rw
      (
        ← length-frame h f.1,
        drop_past (frame h f.1) (blocks_bytes (h + 1) es) (size (take i es)),
        frame_at (h + 1) es i e k,
        next_height h i,
      )
      refl

pub size-take_le : (es : List Entry) (i : ℕ) → size (take i es) ≤ size es
size-take_le es zero = omega arith
size-take_le [] (suc i) = omega arith
size-take_le (e ∷ es) (suc i) = omega (arith, size-take_le es i)

module _ (unmarshal : List ℕ → Option CompactBlock) where
  -- Consecutive blocks from a height on, each with its marshalled form.
  abbrev pub AreEntries : ℕ → List Entry → Type 0
  AreEntries h [] = Unit {0}
  AreEntries h (e ∷ es) =
      (e.0.height ≡ h)
      × (unmarshal e.1 ≡ some e.0)
      × (length e.0.hash ≡ 32)
      × (74 ≤ length e.1)
      × (length e.1 ≤ 4000000)
      × AreEntries (h + 1) es

  pub record IsStored (c : BlockCache) (es : List Entry) : Type 0 where
    pub lengths : c.lengths_file ≡ lengths_bytes es
    pub blocks : c.blocks_file ≡ blocks_bytes c.first_block es
    pub starts : c.starts ≡ offsets 0 es
    pub next : c.next_block ≡ c.first_block + length es
    pub entries : AreEntries c.first_block es

  pub entry_at :
      (h : ℕ) (es : List Entry) (i : ℕ) (e : Entry)
      → AreEntries h es
      → get_elem? es i ≡ some e
      → (e.0.height ≡ h + i) × (unmarshal e.1 ≡ some e.0)
  entry_at h [] i e a k = absurd (ground arith)
  entry_at h (f ∷ es) zero e a k =
      subst (λ x. (x.0.height ≡ h + 0) × (unmarshal x.1 ≡ some x.0)) (some-injective f e k)
        (a.0 ∙ sym (add-zero h), a.1)
  entry_at h (f ∷ es) (suc i) e (p, q, r, s, t, a) k =
      let (u, v) = entry_at (h + 1) es i e a k in (u ∙ next_height h i, v)

  block_in-parts :
      (h : ℕ) (block : CompactBlock) (b d : List ℕ)
      → drop 8 b ≡ d
      → take 8 b ≡ checksum h d
      → block.height ≡ h
      → unmarshal d ≡ some block
      → block_in unmarshal h b ≡ some block
  unfolding block_in
  block_in-parts h block b d p q e u = rw (p, q, same_bytes_refl (checksum h d), u) (ground arith)

  pub block_in-frame :
      (h : ℕ) (block : CompactBlock) (d : List ℕ)
      → block.height ≡ h
      → unmarshal d ≡ some block
      → block_in unmarshal h (frame h d) ≡ some block
  block_in-frame h block d e u =
      block_in-parts h block (frame h d) d
        (rw (length-checksum h d) at (drop_front (checksum h d) d))
        (rw (length-checksum h d) at (take_front (checksum h d) d)) e u

  pub span-stored :
      (c : BlockCache) (es : List Entry) (i : ℕ) (e : Entry)
      → c.starts ≡ offsets 0 es
      → get_elem? es i ≡ some e
      → span c (c.first_block + i) ≡ some (size (take i es), size (take i es) + (length e.1 + 8))
  span-stored c es i e s k =
      let less = get_elem?-lt es i e k in
      rw
        (
          add-sub_left c.first_block i,
          s,
          get_elem?-offsets 0 es i (omega arith),
          plus_one i,
          get_elem?-offsets 0 es (suc i) (omega arith),
          size-take-suc es i e k,
          zero-add (size (take i es)),
          zero-add (size (take i es) + (length e.1 + 8)),
        )
        refl

  pub read_span-stored :
      (c : BlockCache) (h : ℕ) (start n : ℕ) (block : CompactBlock) (b : List ℕ)
      → start + (n + 8) ≤ length c.blocks_file
      → take (n + 8) (drop start c.blocks_file) ≡ b
      → block_in unmarshal h b ≡ some block
      → read_span unmarshal c h (some (start, start + (n + 8))) ≡ ok (some block)
  read_span-stored c h start n block b r t u =
      rw
        (
          le→ltb (start + (n + 8)) start (omega arith),
          le→ltb (length c.blocks_file) (start + (n + 8)) (omega arith),
          le→ltb (start + (n + 8)) (start + 8) (omega arith),
          add-sub_left start (n + 8),
          t,
          u,
        )
        refl

  -- A block that is stored is read back.
  pub read_block-stored :
      (c : BlockCache) (es : List Entry) (i : ℕ) (e : Entry)
      → IsStored c es
      → get_elem? es i ≡ some e
      → read_block unmarshal c (c.first_block + i) ≡ ok (some e.0)
  unfolding read_block
  read_block-stored c es i e s k =
      let (height, decoded) = entry_at c.first_block es i e s.entries k in
      let whole : length c.blocks_file ≡ size es =
        ap length s.blocks ∙ length-blocks_bytes c.first_block es in
      let part = size-take-suc es i e k in
      let within = size-take_le es (suc i) in
      rw (span-stored c es i e s.starts k) (
        read_span-stored c (c.first_block + i) (size (take i es)) (length e.1) e.0 _ (omega arith)
          (ap (λ bs. take (length e.1 + 8) (drop (size (take i es)) bs)) s.blocks
            ∙ frame_at c.first_block es i e k)
          (block_in-frame (c.first_block + i) e.0 e.1 height decoded))
