-- ===== src/Reverse/Pointwise.antt =====
-- `Reverse` turns the order round.
use lightwalletd.Common.{
  ℕ, zero, suc, ◌+◌, ◌-◌, ◌≤◌, ◌<◌, List, [], ◌∷◌, ◌≡◌, refl, ap, ◌∙◌, true, false, ◌&&◌, leb, ltb,
  ◌==◌, ==_iff, if◌then◌else◌, length, set, get_or, replicate, length-replicate, arith, Bool-cases,
  inl, inr,
}
use lightwalletd.Reverse.{reverse_loop, reverse_bytes}

length-set : (xs : List ℕ) (j v : ℕ) → length (set xs j v) ≡ length xs
length-set [] j v = refl
length-set (x ∷ xs) zero v = refl
length-set (x ∷ xs) (suc j) v = ap suc (length-set xs j v)

get_or-set_same : (xs : List ℕ) (j v : ℕ) → j < length xs → get_or (set xs j v) j 0 ≡ v
get_or-set_same [] j v h = absurd (omega arith)
get_or-set_same (x ∷ xs) zero v h = refl
get_or-set_same (x ∷ xs) (suc j) v h = get_or-set_same xs j v (omega arith)

get_or-set_other :
    (xs : List ℕ) (i j v : ℕ) → (i == j) ≡ false → get_or (set xs j v) i 0 ≡ get_or xs i 0
get_or-set_other [] i j v h = refl
get_or-set_other (x ∷ xs) zero zero v h = absurd (ground arith)
get_or-set_other (x ∷ xs) zero (suc j) v h = refl
get_or-set_other (x ∷ xs) (suc i) zero v h = refl
get_or-set_other (x ∷ xs) (suc i) (suc j) v h = get_or-set_other xs i j v (ground arith)

-- The bytes from `left` up to `right` are those of the opposite places, and the others are kept.
abbrev swapped : List ℕ → List ℕ → ℕ → ℕ → ℕ → ℕ
swapped a r left right i =
    if leb left i && ltb i right then get_or a (length a - 1 - i) 0 else get_or r i 0

outside : (left right i : ℕ) → right ≤ left → (leb left i && ltb i right) ≡ false
outside left right i h = ground arith

inside : (left right i : ℕ) → left ≤ i → i < right → (leb left i && ltb i right) ≡ true
inside left right i h k = ground arith

shut : (left right : ℕ) → leb (left + 1) right ≡ false → right ≤ left
shut left right h = ground arith

open_ : (left right : ℕ) → leb (left + 1) right ≡ true → left + 1 ≤ right
open_ left right h = ground arith

outer : (left right i : ℕ) → right ≤ i → (leb left i && ltb i right) ≡ false
outer left right i h = ground arith

below_start : (left right i : ℕ) → i < left → (leb left i && ltb i right) ≡ false
below_start left right i h = ground arith

between :
    (left right i : ℕ)
    → (i == left) ≡ false
    → (i == (right - 1)) ≡ false
    → left + 1 ≤ right
    → (leb (left + 1) i && ltb i (right - 1)) ≡ (leb left i && ltb i right)
between left right i h k m = ground arith

abbrev rounded : List ℕ → List ℕ → ℕ → ℕ → List ℕ
rounded a r left right = set (set r left (get_or a (right - 1) 0)) (right - 1) (get_or a left 0)

at_last :
    (a r : List ℕ) (left right i : ℕ)
    → left + right ≡ length a
    → length r ≡ length a
    → left + 1 ≤ right
    → i ≡ right - 1
    → swapped a (rounded a r left right) (left + 1) (right - 1) i ≡ swapped a r left right i
at_last a r left right i e l m t =
    rw
      (
        outer (left + 1) (right - 1) i (omega arith),
        inside left right i (omega arith) (omega arith),
        t,
        get_or-set_same (set r left (get_or a (right - 1) 0)) (right - 1) (get_or a left 0)
            (omega (arith, length-set r left (get_or a (right - 1) 0))),
      )
      (ap (λ k. get_or a k 0) (omega arith))

at_first :
    (a r : List ℕ) (left right i : ℕ)
    → left + right ≡ length a
    → length r ≡ length a
    → left + 1 ≤ right
    → (i == (right - 1)) ≡ false
    → i ≡ left
    → swapped a (rounded a r left right) (left + 1) (right - 1) i ≡ swapped a r left right i
at_first a r left right i e l m n t =
    rw
      (
        below_start (left + 1) (right - 1) i (omega arith),
        inside left right i (omega arith) (omega arith),
        get_or-set_other (set r left (get_or a (right - 1) 0)) i (right - 1) (get_or a left 0) n,
        t,
        get_or-set_same r left (get_or a (right - 1) 0) (omega arith),
      )
      (ap (λ k. get_or a k 0) (omega arith))

-- One round writes the two ends.
round_swaps :
    (a r : List ℕ) (left right i : ℕ)
    → left + right ≡ length a
    → length r ≡ length a
    → left + 1 ≤ right
    → swapped a
        (set (set r left (get_or a (right - 1) 0)) (right - 1) (get_or a left 0))
        (left + 1)
        (right - 1)
        i
      ≡ swapped a r left right i
round_swaps a r left right i e l m = elim (Bool-cases (i == (right - 1))) [
  | inl t ↦ at_last a r left right i e l m ((==_iff i (right - 1)).0 t)
  | inr t ↦ elim (Bool-cases (i == left)) [
    | inl u ↦ at_first a r left right i e l m t ((==_iff i left).0 u)
    | inr u ↦
        rw
          (
            between left right i u t m,
            get_or-set_other (set r left (get_or a (right - 1) 0)) i (right - 1) (get_or a left 0)
                t,
            get_or-set_other r i left (get_or a (right - 1) 0) u,
          )
          refl
  ]
]

loop_swaps :
    (fuel : ℕ) (a r : List ℕ) (left right i : ℕ)
    → left + right ≡ length a
    → length r ≡ length a
    → right - left ≤ fuel
    → get_or (reverse_loop fuel a r left right) i 0 ≡ swapped a r left right i
unfolding reverse_loop
loop_swaps zero a r left right i e l f = rw (outside left right i (omega arith)) refl
loop_swaps (suc fuel) a r left right i e l f = elim (Bool-cases (leb (left + 1) right)) [
  | inr b ↦ rw (b, outside left right i (omega (arith, shut left right b))) refl
  | inl b ↦
      let r' = set (set r left (get_or a (right - 1) 0)) (right - 1) (get_or a left 0) in
      let some_left : left + 1 ≤ right = open_ left right b in
      rw b (
        loop_swaps fuel a r' (left + 1) (right - 1) i (omega arith)
          (length-set (set r left (get_or a (right - 1) 0)) (right - 1) (get_or a left 0)
            ∙ length-set r left (get_or a (right - 1) 0)
            ∙ l)
          (omega arith)
        ∙ round_swaps a r left right i e l some_left)
]

length-reverse_loop :
    (fuel : ℕ) (a r : List ℕ) (left right : ℕ)
    → length (reverse_loop fuel a r left right) ≡ length r
unfolding reverse_loop
length-reverse_loop zero a r left right = refl
length-reverse_loop (suc fuel) a r left right = elim (Bool-cases (leb (left + 1) right)) [
  | inr b ↦ rw b refl
  | inl b ↦ rw b (
      length-reverse_loop fuel a (rounded a r left right) (left + 1) (right - 1)
      ∙ length-set (set r left (get_or a (right - 1) 0)) (right - 1) (get_or a left 0)
      ∙ length-set r left (get_or a (right - 1) 0))
]

-- The new slice is as long as the old, and each of its bytes is the old one's at the opposite place.
pub reverse_bytes_lem :
    (a : List ℕ) (i : ℕ)
    → i < length a
    → (length (reverse_bytes a) ≡ length a)
      × (get_or (reverse_bytes a) i 0 ≡ get_or a (length a - 1 - i) 0)
unfolding reverse_bytes
reverse_bytes_lem a i h = (
  length-reverse_loop (length a) a (replicate (length a) 0) 0 (length a)
      ∙ length-replicate (length a) 0,
  loop_swaps (length a) a (replicate (length a) 0) 0 (length a) i (omega arith)
        (length-replicate (length a) 0) (omega arith)
      ∙ rw (inside 0 (length a) i (omega arith) h) refl,
)
