-- ===== src/BlockCache/Lookup.antt =====
-- The block cache as a list of consecutive blocks: `Get` looks up and `Reorg` cuts.
use mathlib.Core.Option
use mathlib.Core.Path.{subst}
use lightwalletd.Common.{
  ℕ, zero, suc, ◌+◌, ◌-◌, ◌≤◌, ◌<◌, List, [], ◌∷◌, ◌≡◌, refl, sym, ap, ◌∙◌, Option, none, some,
  Bool, true, false, ◌||◌, ltb, leb, if◌then◌else◌, length, take, take_all, get_elem?, arith, ok,
  le→ltb, lt→ltb, Bool-cases, ltb→lt, ltb→le, inl, inr,
}
use lightwalletd.Block.{CompactBlock}
use lightwalletd.BlockCache.Defs.{BlockCache, raised, cut_files, set_latest_hash}
use lightwalletd.BlockCache.Operations.{reorg, get}
use lightwalletd.BlockCache.Frames.{Entry}
use lightwalletd.BlockCache.Holds.{read_block-stored}
use lightwalletd.BlockCache.Cut.{last_hash, cut_files-IsStored, set_latest_hash-stored}
use lightwalletd.BlockCache.Refine.{Holds}

pub at_index :
    {A : Type 0} (xs : List A) (i : ℕ) → i < length xs → (x : A) × (get_elem? xs i ≡ some x)
at_index [] i h = absurd (omega arith)
at_index (x ∷ xs) zero h = (x, refl)
at_index (x ∷ xs) (suc i) h = at_index xs i (omega arith)

past_index : {A : Type 0} (xs : List A) (i : ℕ) → length xs ≤ i → get_elem? xs i ≡ none
past_index [] i h = refl
past_index (x ∷ xs) zero h = absurd (omega arith)
past_index (x ∷ xs) (suc i) h = past_index xs i (omega arith)

not_past : (h n : ℕ) → h < n → leb n h ≡ false
not_past h n k = ground arith

past : (n h : ℕ) → n ≤ h → leb n h ≡ true
past n h k = ground arith

or_true : (b : Bool) → (b || true) ≡ true
or_true b = ground arith

raised_eq : (c : BlockCache) (h : ℕ) → raised c h ≡ c.first_block + (h - c.first_block)
raised_eq c h = ground arith

module _ (unmarshal : List ℕ → Option CompactBlock) where
  get_within :
      (c : BlockCache) (es : List Entry) (i : ℕ)
      → Holds unmarshal c es
      → i < length es
      → get unmarshal c (c.first_block + i) ≡ ok (Option.map (λ e. e.0) (get_elem? es i), none)
  unfolding get
  get_within c es i s h =
      let (e, at_i) = at_index es i h in
      rw
        (
          le→ltb (c.first_block + i) c.first_block (omega arith),
          not_past (c.first_block + i) c.next_block (omega (arith, s.stored.next)),
          read_block-stored unmarshal c es i e s.stored at_i,
          at_i,
        )
        refl

  get_below :
      (c : BlockCache) (height : ℕ)
      → height < c.first_block
      → get unmarshal c height ≡ ok (none, none)
  unfolding get
  get_below c height h = rw (lt→ltb height c.first_block h) refl

  get_past :
      (c : BlockCache) (height : ℕ)
      → c.next_block ≤ height
      → get unmarshal c height ≡ ok (none, none)
  unfolding get
  get_past c height h = rw (past c.next_block height h, or_true _) refl

  -- `Get` of any height from a cache that holds blocks looks the block up; nothing is recovered.
  pub get_lookup :
      (c : BlockCache) (es : List Entry) (height : ℕ)
      → Holds unmarshal c es
      → get unmarshal c height
        ≡ ok (
          (if ltb height c.first_block
              then none
              else Option.map (λ e. e.0) (get_elem? es (height - c.first_block))),
          none,
        )
  get_lookup c es height s = elim (Bool-cases (ltb height c.first_block)) [
    | inl b ↦ rw b (get_below c height (ltb→lt height c.first_block b))
    | inr b ↦
        let i = height - c.first_block in
        let above : c.first_block + i ≡ height = omega (arith, ltb→le height c.first_block b) in
        elim (Bool-cases (ltb i (length es))) [
          | inl l ↦
              rw b (ap (get unmarshal c) (sym above) ∙ get_within c es i s (ltb→lt i (length es) l))
          | inr l ↦
              rw (b, past_index es i (ltb→le i (length es) l))
                (get_past c height (omega (arith, s.stored.next, ltb→le i (length es) l)))
        ]
  ]

  reorg_cuts :
      (fuel : ℕ) (c c' c'' : BlockCache) (height : ℕ)
      → raised c height < c.next_block
      → cut_files c (raised c height) ≡ some c'
      → set_latest_hash unmarshal fuel c' ≡ ok c''
      → reorg unmarshal fuel c height ≡ ok c''
  unfolding reorg
  reorg_cuts fuel c c' c'' height h e l = rw (not_past (raised c height) c.next_block h, e, l) refl

  reorg_ignored :
      (fuel : ℕ) (c : BlockCache) (height : ℕ)
      → c.next_block ≤ raised c height
      → reorg unmarshal fuel c height ≡ ok c
  unfolding reorg
  reorg_ignored fuel c height h = rw (past c.next_block (raised c height) h) refl

  -- `Reorg` of a cache that holds blocks leaves those below the height, with any fuel past 0.
  pub reorg-Holds :
      (fuel : ℕ) (c : BlockCache) (es : List Entry) (height : ℕ)
      → Holds unmarshal c es
      → (c' : BlockCache) × (reorg unmarshal (suc fuel) c height ≡ ok c')
        × Holds unmarshal c' (take (height - c.first_block) es)
        × (c'.first_block ≡ c.first_block)
  reorg-Holds fuel c es height s =
      let i = height - c.first_block in
      elim (Bool-cases (ltb i (length es))) [
        | inl l ↦
            let (c', cut, stored, same) =
              cut_files-IsStored unmarshal c es i s.stored
                (omega (arith, ltb→lt i (length es) l)) in
            (
              record c' { latest_hash = last_hash (take i es) },
              reorg_cuts (suc fuel) c c' _ height
                  (omega (arith, raised_eq c height, ltb→lt i (length es) l, s.stored.next))
                  (ap (cut_files c) (raised_eq c height) ∙ cut)
                  (set_latest_hash-stored unmarshal fuel c' (take i es) stored),
              record {
                stored = record {
                  lengths = stored.lengths;
                  blocks = stored.blocks;
                  starts = stored.starts;
                  next = stored.next;
                  entries = stored.entries;
                };
                latest = refl;
              },
              same,
            )
        | inr l ↦ (
          c,
          reorg_ignored (suc fuel) c height
              (omega (arith, raised_eq c height, ltb→le i (length es) l, s.stored.next)),
          subst (Holds unmarshal c) (sym (take_all i es (ltb→le i (length es) l))) s,
          refl,
        )
      ]
