-- ===== src/BlockCache/Cut.antt =====
-- Cutting the cache behind a height, and the hash of its last block.
use mathlib.Core.Option
use native.Mathlib.Nat.{zero-add}
use lightwalletd.Common.{
  ℕ, zero, suc, ◌+◌, ◌-◌, ◌*◌, ◌≤◌, ◌<◌, List, [], ◌∷◌, ◌≡◌, refl, sym, ap, ◌∙◌, Option, none, some,
  length, take, drop, take-append-drop, length-take, get_elem?, arith, ok, le→ltb, lt→ltb,
}
use lightwalletd.Block.{CompactBlock}
use lightwalletd.BlockCache.Defs.{
  BlockCache, truncate, raised, cut_with, cut_files, read_block, set_latest_hash,
}
use lightwalletd.BlockCache.Frames.{
  Entry, blocks_bytes, lengths_bytes, offsets, size, length-blocks_bytes, length-lengths_bytes,
  blocks_bytes-append, lengths_bytes-append, get_elem?-offsets, take-offsets, truncate_front,
}
use lightwalletd.BlockCache.Holds.{AreEntries, IsStored, add-sub_left, plus_one, read_block-stored}

-- The hash of the last block.
abbrev pub last_entry : List Entry → Option Entry
last_entry [] = none
last_entry (e ∷ []) = some e
last_entry (e ∷ f ∷ es) = last_entry (f ∷ es)

abbrev pub last_hash : List Entry → Option (List ℕ)
last_hash es = Option.map (λ e. e.0.hash) (last_entry es)

last_entry_at :
    (e : Entry) (es : List Entry)
    → (f : Entry) × (last_entry (e ∷ es) ≡ some f) × (get_elem? (e ∷ es) (length es) ≡ some f)
last_entry_at e [] = (e, refl, refl)
last_entry_at e (f ∷ es) = last_entry_at f es

truncate_blocks :
    (h : ℕ) (es : List Entry) (i : ℕ)
    → truncate (size (take i es)) (blocks_bytes h es) ≡ blocks_bytes h (take i es)
truncate_blocks h es i =
    let kept = blocks_bytes h (take i es) in
    let size_is = sym (length-blocks_bytes h (take i es)) in
    let gone = blocks_bytes (h + length (take i es)) (drop i es) in
    ap (λ es'. truncate (size (take i es)) (blocks_bytes h es')) (sym (take-append-drop i es))
    ∙ (λ j. truncate (size_is j) (blocks_bytes-append h (take i es) (drop i es) j))
    ∙ truncate_front kept gone

truncate_lengths :
    (es : List Entry) (i : ℕ)
    → i ≤ length es
    → truncate (i * 4) (lengths_bytes es) ≡ lengths_bytes (take i es)
truncate_lengths es i h =
    let kept = lengths_bytes (take i es) in
    let all_kept : i * 4 ≡ length kept =
      omega (arith, length-lengths_bytes (take i es), length-take i es) in
    ap (λ es'. truncate (i * 4) (lengths_bytes es')) (sym (take-append-drop i es))
    ∙ (λ j. truncate (all_kept j) (lengths_bytes-append (take i es) (drop i es) j))
    ∙ truncate_front kept (lengths_bytes (drop i es))

cut_files_at :
    (c : BlockCache) (i start : ℕ)
    → get_elem? c.starts i ≡ some start
    → cut_files c (c.first_block + i)
      ≡ some (record c {
        lengths_file = truncate (i * 4) c.lengths_file;
        blocks_file = truncate start c.blocks_file;
        starts = take (i + 1) c.starts;
        next_block = c.first_block + i;
      })
unfolding cut_files
cut_files_at c i start e =
    let same : raised c (c.first_block + i) ≡ c.first_block + i =
      rw (le→ltb (c.first_block + i) c.first_block (omega arith)) refl in
    ap (λ h. cut_with c h (get_elem? c.starts (h - c.first_block))) same
    ∙ ap (cut_with c (c.first_block + i))
        (ap (get_elem? c.starts) (add-sub_left c.first_block i) ∙ e)
    ∙ ap
        (λ n. some (record c {
          lengths_file = truncate (n * 4) c.lengths_file;
          blocks_file = truncate start c.blocks_file;
          starts = take (n + 1) c.starts;
          next_block = c.first_block + i;
        }))
        (add-sub_left c.first_block i)

module _ (unmarshal : List ℕ → Option CompactBlock) where
  AreEntries-take :
      (h : ℕ) (es : List Entry) (i : ℕ)
      → AreEntries unmarshal h es
      → AreEntries unmarshal h (take i es)
  AreEntries-take h es zero a = tt
  AreEntries-take h [] (suc i) a = tt
  AreEntries-take h (e ∷ es) (suc i) (p, q, r, s, t, a) =
      (p, q, r, s, t, AreEntries-take (h + 1) es i a)

  -- Cutting at a height leaves the blocks below it.
  pub cut_files-IsStored :
      (c : BlockCache) (es : List Entry) (i : ℕ)
      → IsStored unmarshal c es
      → i ≤ length es
      → (c' : BlockCache) × (cut_files c (c.first_block + i) ≡ some c')
        × IsStored unmarshal c' (take i es)
        × (c'.first_block ≡ c.first_block)
  unfolding cut_files
  cut_files-IsStored c es i s h = (
    record c {
      lengths_file = truncate (i * 4) c.lengths_file;
      blocks_file = truncate (size (take i es)) c.blocks_file;
      starts = take (i + 1) c.starts;
      next_block = c.first_block + i;
    },
    cut_files_at c i (size (take i es))
        (ap (λ xs. get_elem? xs i) s.starts ∙ get_elem?-offsets 0 es i h ∙ ap some (zero-add _)),
    record {
      lengths = ap (truncate (i * 4)) s.lengths ∙ truncate_lengths es i h;
      blocks = ap (truncate (size (take i es))) s.blocks ∙ truncate_blocks c.first_block es i;
      starts =
          ap (take (i + 1)) s.starts
          ∙ (ap (λ n. take n (offsets 0 es)) (plus_one i) ∙ take-offsets 0 es i h);
      next = ap (λ n. c.first_block + n) (omega (arith, length-take i es));
      entries = AreEntries-take c.first_block es i s.entries;
    },
    refl,
  )

  pub set_latest_hash_read :
      (fuel : ℕ) (c : BlockCache) (block : CompactBlock)
      → c.first_block < c.next_block
      → read_block unmarshal (record c { latest_hash = none }) (c.next_block - 1) ≡ ok (some block)
      → set_latest_hash unmarshal (suc fuel) c ≡ ok (record c { latest_hash = some block.hash })
  unfolding set_latest_hash
  set_latest_hash_read fuel c block h e = rw (lt→ltb c.first_block c.next_block h, e) refl

  -- On a cache that holds blocks, the hash is the last block's, and nothing is recovered.
  pub set_latest_hash-stored :
      (fuel : ℕ) (c : BlockCache) (es : List Entry)
      → IsStored unmarshal c es
      → set_latest_hash unmarshal (suc fuel) c ≡ ok (record c { latest_hash = last_hash es })
  set_latest_hash-stored fuel c [] s =
      unfold set_latest_hash in rw (le→ltb c.first_block c.next_block (omega (arith, s.next))) refl
  set_latest_hash-stored fuel c (e ∷ es) s =
      let (f, is_last, at_last) = last_entry_at e es in
      let below = record c { latest_hash = none } in
      let read =
        read_block-stored unmarshal below (e ∷ es) (length es) f
          (record {
            lengths = s.lengths;
            blocks = s.blocks;
            starts = s.starts;
            next = s.next;
            entries = s.entries;
          })
          at_last in
      let height : c.next_block - 1 ≡ c.first_block + length es = omega (arith, s.next) in
      set_latest_hash_read fuel c f.0 (omega (arith, s.next))
        (ap (λ n. read_block unmarshal below n) height ∙ read)
      ∙ ap (λ h. ok (record c { latest_hash = h })) (ap (Option.map (λ g. g.0.hash)) (sym is_last))
