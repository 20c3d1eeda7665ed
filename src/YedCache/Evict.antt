-- ===== src/YedCache/Evict.antt =====
-- The map of answers: its bounds, and what it finds.
use mathlib.Core.Option.{some-injective}
use lightwalletd.Common.{
  ℕ, zero, suc, ◌+◌, ◌≤◌, ◌<◌, List, [], ◌∷◌, ◌++◌, ◌≡◌, refl, sym, ap, ◌∙◌, append_assoc,
  append-nil, false, none, some, length, arith, Bool-cases, Option-cases, inl, inr,
}
use lightwalletd.BlockCache.{same_bytes}
use lightwalletd.YedCache.Defs.{
  LruEntry, YedLru, find, remove, stored, is_over, back, front, without_back, evict,
}

abbrev pub total : List LruEntry → ℕ
total [] = 0
total (e ∷ es) = length e.raw + total es

-- The bytes are those of the answers, and both bounds hold.
pub record IsBounded (c : YedLru) : Type 0 where
  pub counted : c.bytes ≡ total c.order
  pub few : length c.order ≤ c.max_entries
  pub small : c.bytes ≤ c.max_bytes

front-back : (e : LruEntry) (es : List LruEntry) → front e es ++ back e es ∷ [] ≡ e ∷ es
front-back e [] = refl
front-back e (f ∷ es) = ap (λ xs. e ∷ xs) (front-back f es)

total-append : (xs ys : List LruEntry) → total (xs ++ ys) ≡ total xs + total ys
total-append [] ys = omega arith
total-append (x ∷ xs) ys = omega (arith, total-append xs ys)

total-front :
    (e : LruEntry) (es : List LruEntry)
    → total (e ∷ es) ≡ total (front e es) + length (back e es).raw
total-front e es =
    ap total (sym (front-back e es)) ∙ total-append (front e es) (back e es ∷ []) ∙ omega arith

length-front : (e : LruEntry) (es : List LruEntry) → length (front e es) ≡ length es
length-front e [] = refl
length-front e (f ∷ es) = ap suc (length-front f es)

not_over :
    (c : YedLru) → is_over c ≡ false → (length c.order ≤ c.max_entries) × (c.bytes ≤ c.max_bytes)
not_over c h = ground arith

-- What the eviction leaves of a list with an entry in front: that entry, and a part from the front of
-- the others, within both bounds.
pub record IsEvicted (c : YedLru) (e : LruEntry) (es : List LruEntry) (c' : YedLru) : Type 0 where
  pub stays : List LruEntry
  pub gone : List LruEntry
  pub split : es ≡ stays ++ gone
  pub order : c'.order ≡ e ∷ stays
  pub bounded : IsBounded c'
  pub max_entries : c'.max_entries ≡ c.max_entries
  pub max_bytes : c'.max_bytes ≡ c.max_bytes

within : (c : YedLru) → length c.order ≤ c.max_entries → c.bytes ≤ c.max_bytes → is_over c ≡ false
within c h k = ground arith

nothing_gone :
    (c : YedLru) (e : LruEntry) (es : List LruEntry)
    → c.order ≡ e ∷ es
    → c.bytes ≡ total (e ∷ es)
    → is_over c ≡ false
    → IsEvicted c e es c
nothing_gone c e es o b n =
    let (few, small) = not_over c n in
    record {
      stays = es;
      gone = [];
      split = sym (append-nil es);
      order = o;
      bounded = record { counted = b ∙ ap total (sym o); few = few; small = small };
      max_entries = refl;
      max_bytes = refl;
    }

pub evict_keeps :
    (fuel : ℕ) (c : YedLru) (e : LruEntry) (es : List LruEntry)
    → c.order ≡ e ∷ es
    → c.bytes ≡ total (e ∷ es)
    → length e.raw ≤ c.max_bytes
    → 1 ≤ c.max_entries
    → length es < fuel
    → (c' : YedLru) × (evict fuel c (e ∷ es) ≡ some c') × IsEvicted c e es c'
unfolding evict
evict_keeps zero c e es o b r m h = absurd (omega arith)
evict_keeps (suc fuel) c e [] o b r m h =
    let alone = within c (omega (arith, ap length o)) (omega (arith, b)) in
    (c, rw alone refl, nothing_gone c e [] o b alone)
evict_keeps (suc fuel) c e (f ∷ es) o b r m h = elim (Bool-cases (is_over c)) [
  | inr n ↦ (c, rw n refl, nothing_gone c e (f ∷ es) o b n)
  | inl n ↦
      let c₁ = without_back c e (f ∷ es) in
      let sum = total-front e (f ∷ es) in
      let (c', done, k) =
        evict_keeps fuel c₁ e (front f es) refl (omega (arith, b, sum)) r m
          (omega (arith, length-front f es)) in
      (
        c',
        rw n done,
        record {
          stays = k.stays;
          gone = k.gone ++ back f es ∷ [];
          split =
              sym (front-back f es)
              ∙ ap (λ xs. xs ++ back f es ∷ []) k.split
              ∙ append_assoc k.stays k.gone (back f es ∷ []);
          order = k.order;
          bounded = k.bounded;
          max_entries = k.max_entries;
          max_bytes = k.max_bytes;
        },
      )
]

total-remove :
    (key : List ℕ) (es : List LruEntry) (old : List ℕ)
    → find key es ≡ some old
    → total es ≡ length old + total (remove key es)
total-remove key [] old h = absurd (ground arith)
total-remove key (e ∷ es) old h = elim (Bool-cases (same_bytes key e.key)) [
  | inl s ↦ rw s (omega (arith, ap length (some-injective e.raw old (rw s at h))))
  | inr s ↦ rw s (omega (arith, total-remove key es old (rw s at h)))
]

remove_absent : (key : List ℕ) (es : List LruEntry) → find key es ≡ none → remove key es ≡ es
remove_absent key [] h = refl
remove_absent key (e ∷ es) h = elim (Bool-cases (same_bytes key e.key)) [
  | inl s ↦ absurd (ground arith)
  | inr s ↦ rw s (ap (λ xs. e ∷ xs) (remove_absent key es (rw s at h)))
]

-- The bytes are counted right before the eviction.
pub stored_counts :
    (c : YedLru) (key raw : List ℕ)
    → c.bytes ≡ total c.order
    → (stored c key raw).bytes ≡ length raw + total (remove key c.order)
stored_counts c key raw b = elim (Option-cases (find key c.order)) [
  | inl n ↦ rw n (omega (arith, b, ap total (remove_absent key c.order n)))
  | inr (old, e) ↦ rw e (omega (arith, b, total-remove key c.order old e))
]
