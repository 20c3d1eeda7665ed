-- ===== src/BlockCache/Restart.antt =====
-- `NewBlockCache` on the files that a cache has left finds the same blocks.
use mathlib.Core.Path.{subst}
use native.Mathlib.Nat.{add-zero, zero-add}
use lightwalletd.Common.{
  ℕ, suc, ◌+◌, ◌≤◌, List, [], ◌∷◌, ◌++◌, ◌≡◌, refl, sym, ap, ◌∙◌, append-nil, append_assoc, Option,
  some, true, false, leb, length, length-append, take, drop, take_all, take_front, get_elem?, arith,
  ok, le→ltb,
}
use lightwalletd.Bytestring.{le_loop}
use lightwalletd.Bytestring.Words.{
  le_bytes, le_bytes-IsByte, le_loop-eq-value, le_value-le_bytes, length-le_bytes,
}
use lightwalletd.Block.{CompactBlock}
use lightwalletd.BlockCache.Defs.{BlockCache, cut_files, read_block, set_latest_hash}
use lightwalletd.BlockCache.Operations.{
  set_db_files, with_start, entry_lengths, load_entries, opened, new_block_cache,
}
use lightwalletd.BlockCache.Frames.{
  Entry, blocks_bytes, lengths_bytes, offsets, size, offsets-append, length-blocks_bytes,
}
use lightwalletd.BlockCache.Holds.{
  AreEntries, IsStored, span-stored, frame_at, read_span-stored, block_in-frame, entry_at,
  size-take-suc, size-take_le,
}
use lightwalletd.BlockCache.Cut.{last_hash, cut_files-IsStored, set_latest_hash-stored}
use lightwalletd.BlockCache.Refine.{Holds}

le_loop-le_bytes : (n : ℕ) → n ≤ 4000000 → le_loop 32 (le_bytes 4 n) ≡ n
le_loop-le_bytes n h =
    le_loop-eq-value 4 (le_bytes 4 n) (le_bytes-IsByte 4 n) (omega (arith, length-le_bytes 4 n))
    ∙ le_value-le_bytes 4 n (omega arith)

get_elem?-middle :
    {A : Type 0} (xs : List A) (y : A) (ys : List A) → get_elem? (xs ++ y ∷ ys) (length xs) ≡ some y
get_elem?-middle [] y ys = refl
get_elem?-middle (x ∷ xs) y ys = get_elem?-middle xs y ys

abbrev lengths_of : List Entry → List ℕ
lengths_of [] = []
lengths_of (e ∷ es) = length e.1 ∷ lengths_of es

entry_lengths-lengths_bytes :
    (unmarshal : List ℕ → Option CompactBlock) (h : ℕ) (es : List Entry)
    → AreEntries unmarshal h es
    → entry_lengths (lengths_bytes es) ≡ lengths_of es
unfolding entry_lengths le_bytes
entry_lengths-lengths_bytes unmarshal h [] a = refl
entry_lengths-lengths_bytes unmarshal h (e ∷ es) (p, q, r, s, t, a) =
    λ i. le_loop-le_bytes (length e.1) t i ∷ entry_lengths-lengths_bytes unmarshal (h + 1) es a i

at_most : (n : ℕ) → leb n n ≡ true
at_most n = ground arith

size-snoc : (es : List Entry) (e : Entry) → size (es ++ e ∷ []) ≡ size es + (length e.1 + 8)
size-snoc [] e = omega arith
size-snoc (f ∷ es) e = omega (arith, size-snoc es e)

starts-snoc :
    (starts : List ℕ) (es : List Entry) (e : Entry)
    → starts ≡ offsets 0 es
    → starts ++ (size es + (length e.1 + 8)) ∷ [] ≡ offsets 0 (es ++ e ∷ [])
starts-snoc starts es e s =
    ap (λ xs. xs ++ (size es + (length e.1 + 8)) ∷ []) s
    ∙ ap (λ n. offsets 0 es ++ (n + (length e.1 + 8)) ∷ []) (sym (zero-add (size es)))
    ∙ sym (offsets-append 0 es e)

entry_size :
    (unmarshal : List ℕ → Option CompactBlock) (h : ℕ) (pre : List Entry) (e : Entry)
    (rest : List Entry)
    → AreEntries unmarshal h (pre ++ e ∷ rest)
    → (74 ≤ length e.1) × (length e.1 ≤ 4000000)
entry_size unmarshal h [] e rest (p, q, r, s, t, a) = (s, t)
entry_size unmarshal h (f ∷ pre) e rest (p, q, r, s, t, a) =
    entry_size unmarshal (h + 1) pre e rest a

module _ (unmarshal : List ℕ → Option CompactBlock) where
  -- The block behind those that are loaded is read, once its offset is known.
  read_block-next :
      (c : BlockCache) (pre : List Entry) (e : Entry) (rest : List Entry)
      → c.blocks_file ≡ blocks_bytes c.first_block (pre ++ e ∷ rest)
      → c.starts ≡ offsets 0 (pre ++ e ∷ [])
      → AreEntries unmarshal c.first_block (pre ++ e ∷ rest)
      → read_block unmarshal c (c.first_block + length pre) ≡ ok (some e.0)
  unfolding read_block
  read_block-next c pre e rest b s a =
      let all = pre ++ e ∷ rest in
      let i = length pre in
      let at_i = get_elem?-middle pre e rest in
      let (height, decoded) = entry_at unmarshal c.first_block all i e a at_i in
      let whole : length c.blocks_file ≡ size all =
        ap length b ∙ length-blocks_bytes c.first_block all in
      let same : size (take i (pre ++ e ∷ [])) ≡ size (take i all) =
        ap size (take_front pre (e ∷ []) ∙ sym (take_front pre (e ∷ rest))) in
      rw (span-stored unmarshal c (pre ++ e ∷ []) i e s (get_elem?-middle pre e []), same)
        (read_span-stored unmarshal c (c.first_block + i) (size (take i all)) (length e.1) e.0 _
          (omega (arith, size-take-suc all i e at_i, size-take_le all (suc i)))
          (ap (λ bs. take (length e.1 + 8) (drop (size (take i all)) bs)) b
            ∙ frame_at c.first_block all i e at_i)
          (block_in-frame unmarshal (c.first_block + i) e.0 e.1 height decoded))

  load_entries_read :
      (fuel n : ℕ) (ns : List ℕ) (offset : ℕ) (c : BlockCache) (block : CompactBlock)
      → 74 ≤ n
      → n ≤ 4000000
      → read_block unmarshal (with_start unmarshal c (offset + (n + 8))) c.next_block
        ≡ ok (some block)
      → load_entries unmarshal fuel (n ∷ ns) offset c
        ≡ load_entries unmarshal fuel ns (offset + (n + 8)) (record c {
          starts = c.starts ++ (offset + (n + 8)) ∷ [];
          next_block = c.next_block + 1;
        })
  unfolding load_entries
  load_entries_read fuel n ns offset c block h k r = rw (le→ltb n 74 h, le→ltb 4000000 n k, r) refl

  load_entries-all :
      (fuel : ℕ) (rest pre : List Entry) (c : BlockCache)
      → c.blocks_file ≡ blocks_bytes c.first_block (pre ++ rest)
      → c.starts ≡ offsets 0 pre
      → c.next_block ≡ c.first_block + length pre
      → AreEntries unmarshal c.first_block (pre ++ rest)
      → load_entries unmarshal fuel (lengths_of rest) (size pre) c
        ≡ ok (record c {
          starts = offsets 0 (pre ++ rest);
          next_block = c.first_block + length (pre ++ rest);
        })
  load_entries-all fuel [] pre c b s n a =
      unfold load_entries in
      λ i. ok (record c {
        starts = (s ∙ ap (offsets 0) (sym (append-nil pre))) i;
        next_block = (n ∙ ap (λ es. c.first_block + length es) (sym (append-nil pre))) i;
      })
  load_entries-all fuel (e ∷ rest) pre c b s n a =
      let offset = size pre + (length e.1 + 8) in
      let c₁ = with_start unmarshal c offset in
      let starts : c₁.starts ≡ offsets 0 (pre ++ e ∷ []) = starts-snoc c.starts pre e s in
      let assoc = append_assoc pre (e ∷ []) rest in
      let (low, high) = entry_size unmarshal c.first_block pre e rest a in
      load_entries_read fuel (length e.1) (lengths_of rest) (size pre) c e.0 low high
        (ap (read_block unmarshal c₁) n ∙ read_block-next c₁ pre e rest b starts a)
      ∙ ap
          (λ o.
            load_entries unmarshal fuel (lengths_of rest) o
              (record c₁ { next_block = c.next_block + 1 }))
          (sym (size-snoc pre e))
      ∙ load_entries-all fuel rest (pre ++ e ∷ []) (record c₁ { next_block = c.next_block + 1 })
          (b ∙ ap (blocks_bytes c.first_block) (sym assoc)) starts
          (omega (arith, n, length-append pre (e ∷ [])))
          (subst (AreEntries unmarshal c.first_block) (sym assoc) a)
      ∙ (λ i. ok (record c {
        starts = offsets 0 (assoc i);
        next_block = c.first_block + length (assoc i);
      }))

  new_block_cache_loaded :
      (fuel : ℕ) (lengths blocks : List ℕ) (start : ℕ) (c c' : BlockCache)
      → load_entries unmarshal fuel
          (entry_lengths lengths)
          0
          (opened unmarshal lengths blocks start)
        ≡ ok c
      → set_db_files unmarshal fuel c c.next_block ≡ ok c'
      → new_block_cache unmarshal fuel lengths blocks start false ≡ ok c'
  unfolding new_block_cache
  new_block_cache_loaded fuel lengths blocks start c c' e d = rw (e, d) refl

  pub set_db_files_cut :
      (fuel : ℕ) (c c' c'' : BlockCache)
      → cut_files c c.next_block ≡ some c'
      → set_latest_hash unmarshal fuel c' ≡ ok c''
      → set_db_files unmarshal fuel c c.next_block ≡ ok c''
  unfolding set_db_files
  set_db_files_cut fuel c c' c'' e d = rw (at_most c.next_block, e, d) refl

  -- `setDbFiles` at the next height keeps all blocks and sets the hash.
  set_db_files-stored :
      (fuel : ℕ) (c : BlockCache) (es : List Entry)
      → IsStored unmarshal c es
      → (c' : BlockCache) × (set_db_files unmarshal (suc fuel) c c.next_block ≡ ok c')
        × Holds unmarshal c' es
        × (c'.first_block ≡ c.first_block)
  set_db_files-stored fuel c es s =
      let (c', cut, kept, same) = cut_files-IsStored unmarshal c es (length es) s (omega arith) in
      let all : IsStored unmarshal c' es =
        subst (IsStored unmarshal c') (take_all (length es) es (omega arith)) kept in
      (
        record c' { latest_hash = last_hash es },
        set_db_files_cut (suc fuel) c c' _ (ap (cut_files c) s.next ∙ cut)
            (set_latest_hash-stored unmarshal fuel c' es all),
        record {
          stored = record {
            lengths = all.lengths;
            blocks = all.blocks;
            starts = all.starts;
            next = all.next;
            entries = all.entries;
          };
          latest = refl;
        },
        same,
      )

  -- A restart on the files of a cache that holds blocks: the new cache holds the same.
  pub new_block_cache-Holds :
      (fuel : ℕ) (c : BlockCache) (es : List Entry)
      → Holds unmarshal c es
      → (c' : BlockCache) × (new_block_cache unmarshal
            (suc fuel)
            c.lengths_file
            c.blocks_file
            c.first_block
            false
          ≡ ok c')
        × Holds unmarshal c' es
        × (c'.first_block ≡ c.first_block)
  new_block_cache-Holds fuel c es s =
      let fresh = opened unmarshal c.lengths_file c.blocks_file c.first_block in
      let all = record fresh { starts = offsets 0 es; next_block = c.first_block + length es } in
      let (c', set, holds, same) = set_db_files-stored fuel all es (record {
        lengths = s.stored.lengths;
        blocks = s.stored.blocks;
        starts = refl;
        next = refl;
        entries = s.stored.entries;
      }) in
      let entries =
        ap entry_lengths s.stored.lengths
        ∙ entry_lengths-lengths_bytes unmarshal c.first_block es s.stored.entries in
      (
        c',
        new_block_cache_loaded (suc fuel) c.lengths_file c.blocks_file c.first_block all c'
            (ap (λ ns. load_entries unmarshal (suc fuel) ns 0 fresh) entries
              ∙ load_entries-all (suc fuel) es [] fresh s.stored.blocks refl
                  (sym (add-zero c.first_block)) s.stored.entries)
            set,
        holds,
        same,
      )
