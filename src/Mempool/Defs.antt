-- ===== src/Mempool/Defs.antt =====
-- frontend/service.go: `MempoolFilter`. Strings are lists of bytes. Equal strings
-- are the same, so that every sort by `<` gives the same list, and an insertion sort stands for
-- `sort.Slice`.
use lightwalletd.Common.{
  ℕ, ◌+◌, List, [], ◌∷◌, Bool, false, not, ◌||◌, Option, none, some, ltb, if◌then◌else◌, length,
  get_elem?, get_or, set, drop, replicate,
}
use lightwalletd.Mempool.Order.{str_lt, has_prefix, less_than}

unfoldable pub insert : List ℕ → List (List ℕ) → List (List ℕ)
insert x [] = x ∷ []
insert x (y ∷ ys) = let rest = insert x ys in if str_lt y x then y ∷ rest else x ∷ y ∷ ys

unfoldable pub sorted : List (List ℕ) → List (List ℕ)
unfolding insert
sorted [] = []
sorted (x ∷ xs) = insert x (sorted xs)

-- `for ei < len(exclude) && lessthan(exclude[ei], item) { ei++ }`, with what is left of `exclude`.
abbrev pub advance_in : List (List ℕ) → ℕ → List ℕ → ℕ
advance_in [] ei item = ei
advance_in (e ∷ es) ei item =
    let next = advance_in es (ei + 1) item in if less_than e item then next else ei

unfoldable pub advance_ei : List (List ℕ) → ℕ → List ℕ → ℕ
advance_ei exclude ei item = advance_in (drop ei exclude) ei item

-- `ei < len(exclude) && strings.HasPrefix(item, exclude[ei])`
abbrev pub has_prefix_at : List ℕ → Option (List ℕ) → Bool
has_prefix_at item none = false
has_prefix_at item (some e) = has_prefix item e

unfoldable pub is_match : List (List ℕ) → ℕ → List ℕ → Bool
is_match exclude ei item = has_prefix_at item (get_elem? exclude ei)

-- `nmatches[ei]++`
abbrev pub bump : List ℕ → ℕ → List ℕ
bump nmatches ei = set nmatches ei (get_or nmatches ei 0 + 1)

module _ (exclude : List (List ℕ)) where
  unfoldable pub count_matches : List (List ℕ) → ℕ → List ℕ → List ℕ
  unfolding advance_ei is_match
  count_matches [] ei nmatches = nmatches
  count_matches (item ∷ items) ei nmatches =
      let ei' = advance_ei exclude ei item in
      count_matches items ei' (if is_match exclude ei' item then bump nmatches ei' else nmatches)

  unfoldable pub to_send : List ℕ → List (List ℕ) → ℕ → List (List ℕ)
  unfolding advance_ei is_match
  to_send nmatches [] ei = []
  to_send nmatches (item ∷ items) ei =
      let ei' = advance_ei exclude ei item in
      let rest = to_send nmatches items ei' in
      if not (is_match exclude ei' item) || ltb 1 (get_or nmatches ei' 0) then item ∷ rest else rest

unfoldable pub mempool_filter : List (List ℕ) → List (List ℕ) → List (List ℕ)
unfolding sorted count_matches to_send
mempool_filter items exclude =
    let items = sorted items in
    let exclude = sorted exclude in
    to_send exclude (count_matches exclude items 0 (replicate (length exclude) 0)) items 0
