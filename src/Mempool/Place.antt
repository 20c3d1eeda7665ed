-- ===== src/Mempool/Place.antt =====
-- Which entry of the sorted exclude list is the first prefix of an item, and that `MempoolFilter`
-- finds it.
use mathlib.Core.Option
use lightwalletd.Common.{
  ℕ, zero, suc, ◌+◌, ◌≤◌, List, [], ◌∷◌, ◌≡◌, refl, ap, ◌∙◌, arith, true, false, inl, inr,
  Bool-cases, All, Option, none, some, drop, get_elem?, if◌then◌else◌,
}
use lightwalletd.Mempool.Order.{
  str_le, has_prefix, less_than_lem, less_at_byte, less_at_byte_le, less_at_byte-has_prefix,
  below_prefix,
}
use lightwalletd.Mempool.Defs.{advance_in, advance_ei, has_prefix_at}
use lightwalletd.Mempool.Sorted.{IsSorted}

-- The place of the first entry that is a prefix of the item.
abbrev pub place : List (List ℕ) → List ℕ → Option ℕ
place [] item = none
place (e ∷ es) item =
    let rest = Option.map suc (place es item) in if has_prefix item e then some 0 else rest

-- How many entries are smaller at a byte, up to the first that is not.
abbrev pub skip : List (List ℕ) → List ℕ → ℕ
skip [] item = 0
skip (e ∷ es) item = let rest = suc (skip es item) in if less_at_byte e item then rest else 0

advance_in-skip :
    (es : List (List ℕ)) (ei : ℕ) (item : List ℕ) → advance_in es ei item ≡ ei + skip es item
advance_in-skip [] ei item = omega arith
advance_in-skip (e ∷ es) ei item =
    let next = advance_in-skip es (ei + 1) item in
    elim (Bool-cases (less_at_byte e item)) [
      | inl less ↦ rw (less_than_lem e item, less) (omega arith)
      | inr more ↦ rw (less_than_lem e item, more) (omega arith)
    ]

skip_from :
    (es : List (List ℕ)) (ei : ℕ) (item : List ℕ)
    → ei ≤ skip es item
    → ei + skip (drop ei es) item ≡ skip es item
skip_from es zero item h = omega arith
skip_from [] (suc ei) item h = absurd (omega arith)
skip_from (e ∷ es) (suc ei) item h = elim (Bool-cases (less_at_byte e item)) [
  | inl less ↦
      let h' : suc ei ≤ suc (skip es item) = rw less at h in
      rw less (let k = skip_from es ei item (omega arith) in omega arith)
  | inr more ↦ absurd (let h' : suc ei ≤ 0 = rw more at h in omega arith)
]

-- From any entry up to there, the search ends there.
pub advance_ei-skip :
    (es : List (List ℕ)) (ei : ℕ) (item : List ℕ)
    → ei ≤ skip es item
    → advance_ei es ei item ≡ skip es item
unfolding advance_ei
advance_ei-skip es ei item h = advance_in-skip (drop ei es) ei item ∙ skip_from es ei item h

pub skip_mono : (es : List (List ℕ)) (a b : List ℕ) → str_le a b ≡ true → skip es a ≤ skip es b
skip_mono [] a b h = omega arith
skip_mono (e ∷ es) a b h = elim (Bool-cases (less_at_byte e a)) [
  | inl less ↦ rw (less, less_at_byte_le e a b less h) (let k = skip_mono es a b h in omega arith)
  | inr more ↦ rw more (omega arith)
]

pub match_here :
    (es : List (List ℕ)) (item : List ℕ)
    → has_prefix_at item (get_elem? es (skip es item)) ≡ true
    → place es item ≡ some (skip es item)
match_here [] item h = absurd (ground arith)
match_here (e ∷ es) item h = elim (Bool-cases (less_at_byte e item)) [
  | inl less ↦
      rw (less, less_at_byte-has_prefix e item less)
        (ap (Option.map suc) (match_here es item (rw less at h)))
  | inr more ↦ let p : has_prefix item e ≡ true = rw more at h in rw (more, p) refl
]

-- If a later entry is a prefix of the item, the first that is not smaller at a byte is one.
no_prefix :
    (e : List ℕ) (es : List (List ℕ)) (item : List ℕ)
    → All (λ y. str_le e y ≡ true) es
    → less_at_byte e item ≡ false
    → has_prefix item e ≡ false
    → place es item ≡ none
no_prefix e [] item a l p = refl
no_prefix e (f ∷ es) item a l p = elim (Bool-cases (has_prefix item f)) [
  | inl found ↦
      absurd
        (elim (below_prefix e f item a.0 found) [ inl x ↦ ground arith | inr x ↦ ground arith ])
  | inr absent ↦ rw (absent, no_prefix e es item a.1 l p) refl
]

pub match_none :
    (es : List (List ℕ)) (item : List ℕ)
    → IsSorted es
    → has_prefix_at item (get_elem? es (skip es item)) ≡ false
    → place es item ≡ none
match_none [] item s h = refl
match_none (e ∷ es) item s h = elim (Bool-cases (less_at_byte e item)) [
  | inl less ↦
      rw (less_at_byte-has_prefix e item less)
        (ap (Option.map suc) (match_none es item s.1 (rw less at h)))
  | inr more ↦
      let p : has_prefix item e ≡ false = rw more at h in
      rw p (ap (Option.map suc) (no_prefix e es item s.0 more p))
]
