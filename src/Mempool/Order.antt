-- ===== src/Mempool/Order.antt =====
-- Strings as Go compares them, byte by byte, and their prefixes.
use lightwalletd.Common.{
  ℕ, List, [], ◌∷◌, ◌≡◌, refl, arith, Bool, true, false, not, ◌&&◌, ◌||◌, ltb, ◌==◌, ◌⊎◌, suc, ap,
  ◌∙◌, length, take, take_all, if◌then◌else◌, inr,
}

-- `a < b`
abbrev pub str_lt : List ℕ → List ℕ → Bool
str_lt a [] = false
str_lt [] (d ∷ b) = true
str_lt (c ∷ a) (d ∷ b) = let rest = str_lt a b in ltb c d || c == d && rest

-- `a <= b`
abbrev pub str_le : List ℕ → List ℕ → Bool
str_le a b = not (str_lt b a)

-- `strings.HasPrefix(item, e)`
abbrev pub has_prefix : List ℕ → List ℕ → Bool
has_prefix item [] = true
has_prefix [] (c ∷ e) = false
has_prefix (d ∷ item) (c ∷ e) = let rest = has_prefix item e in c == d && rest

-- `e < item[0:l]`, where `l` is the length of `e`, or that of the item if it is smaller.
abbrev pub less_than : List ℕ → List ℕ → Bool
less_than e item =
    let l = if ltb (length item) (length e) then length item else length e in str_lt e (take l item)

-- The same: `e` is the smaller at the first byte where they differ.
abbrev pub less_at_byte : List ℕ → List ℕ → Bool
less_at_byte [] item = false
less_at_byte (c ∷ e) [] = false
less_at_byte (c ∷ e) (d ∷ item) = let rest = less_at_byte e item in ltb c d || c == d && rest

cut_length : List ℕ → List ℕ → ℕ
cut_length e item = if ltb (length item) (length e) then length item else length e

cut_length-cons :
    (c d : ℕ) (e item : List ℕ) → cut_length (c ∷ e) (d ∷ item) ≡ suc (cut_length e item)
unfolding cut_length
cut_length-cons c d e item = ground arith

cut_length-nil : (item : List ℕ) → cut_length [] item ≡ 0
unfolding cut_length
cut_length-nil item = ground arith

str_lt-cut : (e item : List ℕ) → str_lt e (take (cut_length e item) item) ≡ less_at_byte e item
str_lt-cut [] [] = ap (str_lt []) (take_all (cut_length [] []) [] (omega arith))
str_lt-cut [] (d ∷ item) = ap (λ n. str_lt [] (take n (d ∷ item))) (cut_length-nil (d ∷ item))
str_lt-cut (c ∷ e) [] = ap (str_lt (c ∷ e)) (take_all (cut_length (c ∷ e) []) [] (omega arith))
str_lt-cut (c ∷ e) (d ∷ item) =
    ap (λ n. str_lt (c ∷ e) (take n (d ∷ item))) (cut_length-cons c d e item)
    ∙ ap (λ b. ltb c d || c == d && b) (str_lt-cut e item)

pub less_than_lem : (e item : List ℕ) → less_than e item ≡ less_at_byte e item
unfolding cut_length
less_than_lem e item = str_lt-cut e item

pub str_le_trans : (a b c : List ℕ) → str_le a b ≡ true → str_le b c ≡ true → str_le a c ≡ true
str_le_trans [] b [] h k = refl
str_le_trans [] [] (z ∷ c) h k = refl
str_le_trans [] (y ∷ b) (z ∷ c) h k = refl
str_le_trans (x ∷ a) [] c h k = absurd (ground arith)
str_le_trans (x ∷ a) (y ∷ b) [] h k = absurd (ground arith)
str_le_trans (x ∷ a) (y ∷ b) (z ∷ c) h k = ground (arith, str_le_trans a b c)

pub str_lt→le : (a b : List ℕ) → str_lt a b ≡ true → str_le a b ≡ true
str_lt→le [] [] h = refl
str_lt→le [] (y ∷ b) h = refl
str_lt→le (x ∷ a) [] h = absurd (ground arith)
str_lt→le (x ∷ a) (y ∷ b) h = ground (arith, str_lt→le a b)

-- What is smaller than an item at a byte is so than every later item.
pub less_at_byte_le :
    (e a b : List ℕ) → less_at_byte e a ≡ true → str_le a b ≡ true → less_at_byte e b ≡ true
less_at_byte_le [] a b h k = h
less_at_byte_le (c ∷ e) [] b h k = absurd (ground arith)
less_at_byte_le (c ∷ e) (x ∷ a) [] h k = absurd (ground arith)
less_at_byte_le (c ∷ e) (x ∷ a) (y ∷ b) h k = ground (arith, less_at_byte_le e a b)

-- A prefix is not smaller at a byte.
pub less_at_byte-has_prefix :
    (e item : List ℕ) → less_at_byte e item ≡ true → has_prefix item e ≡ false
less_at_byte-has_prefix [] item h = absurd (ground arith)
less_at_byte-has_prefix (c ∷ e) [] h = refl
less_at_byte-has_prefix (c ∷ e) (d ∷ item) h = ground (arith, less_at_byte-has_prefix e item)

-- In front of a prefix of an item there are only other prefixes, and what is smaller at a byte.
pub below_prefix :
    (e e' item : List ℕ)
    → str_le e e' ≡ true
    → has_prefix item e' ≡ true
    → (less_at_byte e item ≡ true) ⊎ (has_prefix item e ≡ true)
below_prefix [] e' item h k = inr refl
below_prefix (c ∷ e) [] item h k = absurd (ground arith)
below_prefix (c ∷ e) (d ∷ e') [] h k = absurd (ground arith)
below_prefix (c ∷ e) (d ∷ e') (x ∷ item) h k = ground (arith, below_prefix e e' item)
