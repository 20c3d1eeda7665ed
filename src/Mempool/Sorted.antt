-- ===== src/Mempool/Sorted.antt =====
-- The sort of `MempoolFilter` puts the strings in order, and keeps them.
use mathlib.Core.List.Perm
use mathlib.Core.List.{Perm}
use lightwalletd.Common.{ℕ, List, [], ◌∷◌, ◌≡◌, ap, true, inl, inr, Bool-cases, All, not}
use lightwalletd.Mempool.Order.{str_lt, str_le, str_le_trans, str_lt→le}
use lightwalletd.Mempool.Defs.{insert, sorted}

-- Each string is at most every later one.
abbrev pub IsSorted : List (List ℕ) → Type 0
IsSorted [] = Unit {0}
IsSorted (x ∷ xs) = All (λ y. str_le x y ≡ true) xs × IsSorted xs

All_le_trans :
    (x y : List ℕ) (zs : List (List ℕ))
    → str_le x y ≡ true
    → All (λ z. str_le y z ≡ true) zs
    → All (λ z. str_le x z ≡ true) zs
All_le_trans x y [] h a = tt
All_le_trans x y (z ∷ zs) h a = (str_le_trans x y z h a.0, All_le_trans x y zs h a.1)

insert-All :
    (w x : List ℕ) (ys : List (List ℕ))
    → str_le w x ≡ true
    → All (λ y. str_le w y ≡ true) ys
    → All (λ y. str_le w y ≡ true) (insert x ys)
unfolding insert
insert-All w x [] h a = (h, tt)
insert-All w x (y ∷ ys) h a = elim (Bool-cases (str_lt y x)) [
  | inl less ↦ rw less (a.0, insert-All w x ys h a.1)
  | inr more ↦ rw more (h, a)
]

insert-IsSorted : (x : List ℕ) (ys : List (List ℕ)) → IsSorted ys → IsSorted (insert x ys)
unfolding insert
insert-IsSorted x [] a = (tt, tt)
insert-IsSorted x (y ∷ ys) a = elim (Bool-cases (str_lt y x)) [
  | inl less ↦ rw less (insert-All y x ys (str_lt→le y x less) a.0, insert-IsSorted x ys a.1)
  | inr more ↦
      let le : str_le x y ≡ true = ap not more in rw more ((le, All_le_trans x y ys le a.0), a)
]

pub sorted-IsSorted : (xs : List (List ℕ)) → IsSorted (sorted xs)
unfolding sorted
sorted-IsSorted [] = tt
sorted-IsSorted (x ∷ xs) = insert-IsSorted x (sorted xs) (sorted-IsSorted xs)

insert-Perm : (x : List ℕ) (ys : List (List ℕ)) → Perm (insert x ys) (x ∷ ys)
unfolding insert
insert-Perm x [] = Perm.refl (x ∷ [])
insert-Perm x (y ∷ ys) = elim (Bool-cases (str_lt y x)) [
  | inl less ↦ rw less (Perm.trans (Perm.cons y (insert-Perm x ys)) (Perm.swap x y ys))
  | inr more ↦ rw more (Perm.refl (x ∷ y ∷ ys))
]

-- The same strings, in order.
pub sorted-Perm : (xs : List (List ℕ)) → Perm (sorted xs) xs
unfolding sorted
sorted-Perm [] = Perm.refl []
sorted-Perm (x ∷ xs) = Perm.trans (insert-Perm x (sorted xs)) (Perm.cons x (sorted-Perm xs))
