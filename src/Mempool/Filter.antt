-- ===== src/Mempool/Filter.antt =====
-- `MempoolFilter` is a filter.

use native.Mathlib.Nat.{zero-add}
use lightwalletd.Common.{
  ℕ, zero, suc, ◌+◌, ◌≤◌, ◌<◌, List, [], ◌∷◌, ◌≡◌, refl, ap, ◌∙◌, arith, Bool, true, inl, inr,
  Bool-cases, All, Option, none, some, ltb, ◌==◌, set, get_or, replicate, length, length-replicate,
  get_elem?, if◌then◌else◌,
}
use lightwalletd.Mempool.Order.{str_le}
use lightwalletd.Mempool.Defs.{
  sorted, has_prefix_at, is_match, bump, count_matches, to_send, mempool_filter,
}
use lightwalletd.Mempool.Sorted.{IsSorted, sorted-IsSorted}
use lightwalletd.Mempool.Place.{place, skip, advance_ei-skip, skip_mono, match_here, match_none}

-- The strings that pass a test.
abbrev pub filter_by : (List ℕ → Bool) → List (List ℕ) → List (List ℕ)
filter_by p [] = []
filter_by p (x ∷ xs) = let rest = filter_by p xs in if p x then x ∷ rest else rest

abbrev pub one_if : ℕ → Option ℕ → ℕ
one_if k none = 0
one_if k (some j) = if j == k then 1 else 0

-- How many items have the entry at `k` as their first prefix.
abbrev pub hits : List (List ℕ) → ℕ → List (List ℕ) → ℕ
hits exclude k [] = 0
hits exclude k (item ∷ items) = one_if k (place exclude item) + hits exclude k items

-- No entry is a prefix of the item, or the first that is one is so for other items too.
abbrev pub is_sent_at : List (List ℕ) → List (List ℕ) → Option ℕ → Bool
is_sent_at exclude items none = true
is_sent_at exclude items (some k) = ltb 1 (hits exclude k items)

abbrev pub is_sent : List (List ℕ) → List (List ℕ) → List ℕ → Bool
is_sent exclude items item = is_sent_at exclude items (place exclude item)

length-set : (xs : List ℕ) (i v : ℕ) → length (set xs i v) ≡ length xs
length-set [] i v = refl
length-set (x ∷ xs) zero v = refl
length-set (x ∷ xs) (suc i) v = ap suc (length-set xs i v)

get_or-set :
    (xs : List ℕ) (i v k : ℕ)
    → i < length xs
    → get_or (set xs i v) k 0 ≡ (if i == k then v else get_or xs k 0)
get_or-set [] i v k h = absurd (omega arith)
get_or-set (x ∷ xs) zero v zero h = refl
get_or-set (x ∷ xs) zero v (suc k) h = ground arith
get_or-set (x ∷ xs) (suc i) v zero h = ground arith
get_or-set (x ∷ xs) (suc i) v (suc k) h =
    let e = get_or-set xs i v k (omega arith) in ground (arith, e)

get_or-bump :
    (xs : List ℕ) (i k : ℕ)
    → i < length xs
    → get_or (bump xs i) k 0 ≡ get_or xs k 0 + one_if k (some i)
get_or-bump xs i k h = let e = get_or-set xs i (get_or xs i 0 + 1) k h in ground (arith, e)

-- A match is within the exclude list.
match-lt :
    (es : List (List ℕ)) (i : ℕ) (item : List ℕ)
    → has_prefix_at item (get_elem? es i) ≡ true
    → i < length es
match-lt [] i item h = absurd (ground arith)
match-lt (e ∷ es) zero item h = omega arith
match-lt (e ∷ es) (suc i) item h = omega (arith, match-lt es i item h)

-- The items that are left are not in front of where the search stands.
abbrev IsBehind : List (List ℕ) → ℕ → List (List ℕ) → Type 0
IsBehind exclude ei items = All (λ item. ei ≤ skip exclude item) items

skip-IsBehind :
    (exclude : List (List ℕ)) (item : List ℕ) (items : List (List ℕ))
    → All (λ y. str_le item y ≡ true) items
    → IsBehind exclude (skip exclude item) items
skip-IsBehind exclude item [] a = tt
skip-IsBehind exclude item (x ∷ items) a =
    (skip_mono exclude item x a.0, skip-IsBehind exclude item items a.1)

module _ (exclude : List (List ℕ)) where
  bumped :
      (item : List ℕ) (nmatches : List ℕ) (k : ℕ)
      → IsSorted exclude
      → length nmatches ≡ length exclude
      → let i = skip exclude item in
        let next = if is_match exclude i item then bump nmatches i else nmatches in
        (length next ≡ length exclude)
        × (get_or next k 0 ≡ get_or nmatches k 0 + one_if k (place exclude item))
  unfolding is_match
  bumped item nmatches k s l =
      let i = skip exclude item in
      elim (Bool-cases (has_prefix_at item (get_elem? exclude i))) [
        | inl hit ↦
            rw (hit, match_here exclude item hit)
              (
                length-set nmatches i (get_or nmatches i 0 + 1) ∙ l,
                get_or-bump nmatches i k (let w = match-lt exclude i item hit in omega arith),
              )
        | inr miss ↦ rw (miss, match_none exclude item s miss) (l, omega arith)
      ]

  count_matches-hits :
      (items : List (List ℕ)) (ei : ℕ) (nmatches : List ℕ) (k : ℕ)
      → IsSorted exclude
      → IsSorted items
      → IsBehind exclude ei items
      → length nmatches ≡ length exclude
      → get_or (count_matches exclude items ei nmatches) k 0
        ≡ get_or nmatches k 0 + hits exclude k items
  unfolding count_matches
  count_matches-hits [] ei nmatches k s t b l = omega arith
  count_matches-hits (item ∷ items) ei nmatches k s t b l =
      let (l', g) = bumped item nmatches k s l in
      rw (advance_ei-skip exclude ei item b.0) (
        let ih =
          count_matches-hits items (skip exclude item) _ k s t.1
            (skip-IsBehind exclude item items t.0) l' in
        omega arith)

  -- The loop that sends, with the numbers of matches that were counted.
  to_send-filter :
      (all items : List (List ℕ)) (ei : ℕ) (nmatches : List ℕ)
      → IsSorted exclude
      → IsSorted items
      → IsBehind exclude ei items
      → ((k : ℕ) → get_or nmatches k 0 ≡ hits exclude k all)
      → to_send exclude nmatches items ei ≡ filter_by (is_sent exclude all) items
  unfolding to_send is_match
  to_send-filter all [] ei nmatches s t b c = refl
  to_send-filter all (item ∷ items) ei nmatches s t b c =
      let i = skip exclude item in
      let rest =
        to_send-filter all items i nmatches s t.1 (skip-IsBehind exclude item items t.0) c in
      elim (Bool-cases (has_prefix_at item (get_elem? exclude i))) [
        | inl hit ↦
            rw (advance_ei-skip exclude ei item b.0, hit, match_here exclude item hit, c i, rest)
              refl
        | inr miss ↦
            rw (advance_ei-skip exclude ei item b.0, miss, match_none exclude item s miss, rest)
              refl
      ]

abbrev zeros : ℕ → List ℕ
zeros n = replicate n 0

none_counted : (n k : ℕ) → get_or (zeros n) k 0 ≡ 0
none_counted zero k = refl
none_counted (suc n) zero = refl
none_counted (suc n) (suc k) = none_counted n k

all-IsBehind : (exclude items : List (List ℕ)) → IsBehind exclude 0 items
all-IsBehind exclude [] = tt
all-IsBehind exclude (x ∷ items) = (omega arith, all-IsBehind exclude items)

-- `MempoolFilter` sends, in order, the items of which no exclude entry is a prefix, and those whose
-- first such entry in order is also another item's; its one pass over both lists is this filter.
pub mempool_filter_lem :
    (items exclude : List (List ℕ))
    → mempool_filter items exclude
      ≡ filter_by (is_sent (sorted exclude) (sorted items)) (sorted items)
unfolding mempool_filter
mempool_filter_lem items exclude =
    let s = sorted-IsSorted exclude in
    let t = sorted-IsSorted items in
    let b = all-IsBehind (sorted exclude) (sorted items) in
    to_send-filter (sorted exclude) (sorted items) (sorted items) 0 _ s t b λ k.
      count_matches-hits (sorted exclude) (sorted items) 0 (replicate (length (sorted exclude)) 0) k
        s t b (length-replicate (length (sorted exclude)) 0)
      ∙ ap (λ n. n + hits (sorted exclude) k (sorted items))
          (none_counted (length (sorted exclude)) k)
      ∙ zero-add (hits (sorted exclude) k (sorted items))
