-- ===== src/BlockCache/Refine.antt =====
-- The block cache as a list of consecutive blocks: what it holds, and that `Add` appends.

use mathlib.Core.Path.{subst}
use native.Mathlib.Nat.{add-zero, zero-add}
use lightwalletd.Common.{
  ℕ, suc, ◌+◌, ◌%◌, ◌^◌, ◌≤◌, List, [], ◌∷◌, ◌++◌, ◌≡◌, refl, sym, ap, ◌∙◌, append-nil, Option,
  none, some, true, ◌==◌, length, length-append, take_all, drop_all, arith, ok, le→ltb,
}
use lightwalletd.Bytestring.Words.{le_bytes}
use lightwalletd.Block.{CompactBlock}
use lightwalletd.BlockCache.Checksum.{checksum}
use lightwalletd.BlockCache.Defs.{BlockCache}
use lightwalletd.BlockCache.Operations.{last_of, hash_over, append_at, append_block, add}
use lightwalletd.BlockCache.Frames.{
  Entry, frame, blocks_bytes, lengths_bytes, offsets, size, blocks_bytes-append,
  lengths_bytes-append, offsets-append, last_of-offsets,
}
use lightwalletd.BlockCache.Holds.{AreEntries, IsStored}
use lightwalletd.BlockCache.Cut.{last_hash}

small_length : (n : ℕ) → n ≤ 4000000 → n % 2 ^ 32 ≡ n
small_length n h = omega arith

same_height : (h : ℕ) → (h == h) ≡ true
same_height h = ground arith

next_length : (h n : ℕ) → h + suc n ≡ (h + 1) + n
next_length h n = omega arith

abbrev appended_to : BlockCache → CompactBlock → List ℕ → ℕ → BlockCache
appended_to c block d offset = record {
  lengths_file = c.lengths_file ++ le_bytes 4 (length d % 2 ^ 32);
  blocks_file = c.blocks_file ++ (checksum c.next_block d ++ d);
  starts = c.starts ++ (offset + (length d + 8)) ∷ [];
  first_block = c.first_block;
  next_block = c.next_block + 1;
  latest_hash = some (hash_over c.latest_hash block.hash);
}

module _ (unmarshal : List ℕ → Option CompactBlock) where
  -- The cache holds the blocks, and knows the hash of the last.
  pub record Holds (c : BlockCache) (es : List Entry) : Type 0 where
    pub stored : IsStored unmarshal c es
    pub latest : c.latest_hash ≡ last_hash es

  AreEntries-snoc :
      (h : ℕ) (es : List Entry) (e : Entry)
      → AreEntries unmarshal h es
      → AreEntries unmarshal (h + length es) (e ∷ [])
      → AreEntries unmarshal h (es ++ e ∷ [])
  AreEntries-snoc h [] e a b = subst (λ n. AreEntries unmarshal n (e ∷ [])) (add-zero h) b
  AreEntries-snoc h (f ∷ es) e (p, q, r, s, t, a) b = (
    p,
    q,
    r,
    s,
    t,
    AreEntries-snoc (h + 1) es e a
        (subst (λ n. AreEntries unmarshal n (e ∷ [])) (next_length h (length es)) b),
  )

  last_hash-snoc : (es : List Entry) (e : Entry) → last_hash (es ++ e ∷ []) ≡ some e.0.hash
  last_hash-snoc [] e = refl
  last_hash-snoc (f ∷ []) e = refl
  last_hash-snoc (f ∷ g ∷ es) e = last_hash-snoc (g ∷ es) e

  -- The hashes that are kept have 32 bytes, so that `copy` replaces the old one.
  hash_over-last :
      (h : ℕ) (es : List Entry) (hash : List ℕ)
      → AreEntries unmarshal h es
      → length hash ≡ 32
      → hash_over (last_hash es) hash ≡ hash
  hash_over-last h [] hash a k = refl
  hash_over-last h (e ∷ []) hash (p, q, r, s, t, a) k =
      rw
        (
          take_all (length e.0.hash) hash (omega arith),
          drop_all (length hash) e.0.hash (omega arith),
        )
        (append-nil hash)
  hash_over-last h (e ∷ f ∷ es) hash (p, q, r, s, t, a) k = hash_over-last (h + 1) (f ∷ es) hash a k

  append_block-Holds :
      (c : BlockCache) (es : List Entry) (block : CompactBlock) (d : List ℕ)
      → Holds c es
      → block.height ≡ c.next_block
      → unmarshal d ≡ some block
      → length block.hash ≡ 32
      → 74 ≤ length d
      → length d ≤ 4000000
      → (c' : BlockCache) × (append_block c block d ≡ ok c')
        × Holds c' (es ++ (block, d) ∷ [])
        × (c'.first_block ≡ c.first_block)
  unfolding append_block
  append_block-Holds c es block d s h u k l m = (
    appended_to c block d (size es),
    (λ i.
        append_at c block d
          ((ap last_of s.stored.starts ∙ last_of-offsets 0 es ∙ ap some (zero-add (size es))) i)),
    record {
      stored = record {
        lengths =
            (λ i. s.stored.lengths i ++ le_bytes 4 (small_length (length d) m i))
            ∙ ap (λ bs. lengths_bytes es ++ bs) (sym (append-nil (le_bytes 4 (length d))))
            ∙ sym (lengths_bytes-append es ((block, d) ∷ []));
        blocks =
            (λ i. s.stored.blocks i ++ frame (s.stored.next i) d)
            ∙ ap (λ bs. blocks_bytes c.first_block es ++ bs)
                (sym (append-nil (frame (c.first_block + length es) d)))
            ∙ sym (blocks_bytes-append c.first_block es ((block, d) ∷ []));
        starts =
            ap (λ xs. xs ++ (size es + (length d + 8)) ∷ []) s.stored.starts
            ∙ ap (λ n. offsets 0 es ++ (n + (length d + 8)) ∷ []) (sym (zero-add (size es)))
            ∙ sym (offsets-append 0 es (block, d));
        next = omega (arith, s.stored.next, length-append es ((block, d) ∷ []));
        entries =
            AreEntries-snoc c.first_block es (block, d) s.stored.entries
              (h ∙ s.stored.next, u, k, l, m, tt);
      };
      latest =
          ap some (
            ap (λ o. hash_over o block.hash) s.latest
            ∙ hash_over-last c.first_block es block.hash s.stored.entries k)
          ∙ sym (last_hash-snoc es (block, d));
    },
    refl,
  )

  -- `Add` of the block at the next height appends it: it is stored behind the others, with its hash
  -- as the latest, if its hash has 32 bytes and it marshals to a message of 74 to 4000000 bytes that
  -- unmarshals to it.
  pub add-Holds :
      (marshal : CompactBlock → Option (List ℕ)) (c : BlockCache) (es : List Entry)
      (block : CompactBlock) (d : List ℕ)
      → Holds c es
      → block.height ≡ c.next_block
      → marshal block ≡ some d
      → unmarshal d ≡ some block
      → length block.hash ≡ 32
      → 74 ≤ length d
      → length d ≤ 4000000
      → (c' : BlockCache) × (add marshal c block.height block ≡ ok (none, c'))
        × Holds c' (es ++ (block, d) ∷ [])
        × (c'.first_block ≡ c.first_block)
  unfolding add
  add-Holds marshal c es block d s h m u k l n =
      let (c', done, holds, same) = append_block-Holds c es block d s h u k l n in
      (
        c',
        rw
            (
              le→ltb c.next_block block.height (omega arith),
              le→ltb block.height c.first_block (omega (arith, s.stored.next)),
              le→ltb block.height c.next_block (omega arith),
              same_height block.height,
              m,
              done,
            )
            refl,
        holds,
        same,
      )
