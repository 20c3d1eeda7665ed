-- ===== src/YedCache/Put.antt =====
-- What the map of answers finds after an answer is put.
use mathlib.Core.Path.{subst}
use lightwalletd.Common.{
  ℕ, suc, ◌≤◌, List, [], ◌∷◌, ◌++◌, ◌≡◌, ◌⊎◌, refl, sym, ap, ◌∙◌, true, false, Option, none, some,
  ltb, if◌then◌else◌, length, arith, Bool-cases, inl, inr, ltb→lt, ltb→le,
}
use lightwalletd.BlockCache.Holds.{same_bytes_eq}
use lightwalletd.BlockCache.{same_bytes}
use lightwalletd.BlockCache.Holds.{same_bytes_refl}
use lightwalletd.YedCache.Defs.{LruEntry, YedLru, find, remove, got, lru_get, stored, lru_put}
use lightwalletd.YedCache.Evict.{IsBounded, evict_keeps, stored_counts}

-- Removing a key's entry does not change what is found for another.
find-remove :
    (other key : List ℕ) (es : List LruEntry)
    → same_bytes other key ≡ false
    → find other (remove key es) ≡ find other es
find-remove other key [] n = refl
find-remove other key (e ∷ es) n = elim (Bool-cases (same_bytes key e.key)) [
  | inl s ↦
      let differs : same_bytes other e.key ≡ false =
        subst (λ k. same_bytes other k ≡ false) (same_bytes_eq key e.key s) n in
      rw (s, differs) refl
  | inr s ↦
      rw s (ap (λ r. if same_bytes other e.key then some e.raw else r) (find-remove other key es n))
]

-- What is found in a front part is found in the whole.
find-append :
    (key : List ℕ) (xs ys : List LruEntry)
    → (find key xs ≡ none) ⊎ (find key xs ≡ find key (xs ++ ys))
find-append key [] ys = inl refl
find-append key (x ∷ xs) ys = elim (Bool-cases (same_bytes key x.key)) [
  | inl s ↦ inr (rw s refl)
  | inr s ↦ elim (find-append key xs ys) [ inl n ↦ inl (rw s n) | inr e ↦ inr (rw s e) ]
]

others_kept :
    (other key : List ℕ) (es stays gone : List LruEntry)
    → remove key es ≡ stays ++ gone
    → same_bytes other key ≡ false
    → (find other stays ≡ none) ⊎ (find other stays ≡ find other es)
others_kept other key es stays gone split n = elim (find-append other stays gone) [
  | inl e ↦ inl e
  | inr e ↦ inr (e ∙ ap (find other) (sym split) ∙ find-remove other key es n)
]

got_found : (c : YedLru) (key : List ℕ) (o : Option (List ℕ)) → (got c key o).0 ≡ o
got_found c key none = refl
got_found c key (some raw) = refl

-- `get` answers what is found.
answer : (c : YedLru) (key : List ℕ) → (lru_get c key).0 ≡ find key c.order
unfolding lru_get
answer c key = got_found c key (find key c.order)

-- After an answer is put under a key: the bounds hold; the answer is found, if it is not larger than
-- the whole budget; and another key's answer is the one that it had, or has been evicted.
pub record IsPut (c : YedLru) (key raw : List ℕ) (c' : YedLru) : Type 0 where
  pub bounded : IsBounded c'
  pub found : length raw ≤ c.max_bytes → (lru_get c' key).0 ≡ some raw
  pub others :
      (other : List ℕ)
      → same_bytes other key ≡ false
      → ((lru_get c' other).0 ≡ none) ⊎ ((lru_get c' other).0 ≡ (lru_get c other).0)
  pub max_entries : c'.max_entries ≡ c.max_entries
  pub max_bytes : c'.max_bytes ≡ c.max_bytes

ignored :
    (c : YedLru) (key raw : List ℕ)
    → IsBounded c
    → ltb c.max_bytes (length raw) ≡ true
    → IsPut c key raw c
ignored c key raw s l = record {
  bounded = s;
  found = λ h. absurd (omega (arith, ltb→lt c.max_bytes (length raw) l));
  others = λ other n. inr refl;
  max_entries = refl;
  max_bytes = refl;
}

-- On a map within its bounds that may hold an entry `put` ends, and the map is within its bounds again, finds the answer
-- unless it is larger than the whole budget, and confuses no key with another.
pub lru_put-IsPut :
    (c : YedLru) (key raw : List ℕ)
    → IsBounded c
    → 1 ≤ c.max_entries
    → (c' : YedLru) × (lru_put c key raw ≡ some c') × IsPut c key raw c'
unfolding lru_put
lru_put-IsPut c key raw s m = elim (Bool-cases (ltb c.max_bytes (length raw))) [
  | inl l ↦ (c, rw l refl, ignored c key raw s l)
  | inr l ↦
      let e : LruEntry = record { key = key; raw = raw } in
      let others = remove key c.order in
      let (c', done, k) =
        evict_keeps (suc (suc (length others))) (stored c key raw) e others refl
          (stored_counts c key raw s.counted) (ltb→le c.max_bytes (length raw) l) m (omega arith) in
      (
        c',
        rw l done,
        record {
          bounded = k.bounded;
          found = λ h. answer c' key ∙ rw (k.order, same_bytes_refl key) refl;
          others = λ other n.
              rw (answer c' other, answer c other, k.order, n)
                (others_kept other key c.order k.stays k.gone k.split n);
          max_entries = k.max_entries;
          max_bytes = k.max_bytes;
        },
      )
]
