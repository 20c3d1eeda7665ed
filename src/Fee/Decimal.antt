-- ===== src/Fee/Decimal.antt =====
-- frontend/sendfee.go: `zatFromDecimal`, and the `strconv.ParseInt` that it calls.
use lightwalletd.Common.{
  ℕ, zero, suc, ◌+◌, ◌-◌, ◌*◌, ◌/◌, ◌^◌, List, [], ◌∷◌, ◌++◌, Bool, false, ◌&&◌, ◌||◌, Option, none,
  some, ltb, leb, ◌==◌, if◌then◌else◌, length, replicate,
}
use lightwalletd.Common.Int.{ℤ, pos, negsuc, ◌+ℤ◌, ltb_ℤ}
use lightwalletd.Fee.Defs.{wrap64}

abbrev pub is_digit : ℕ → Bool
is_digit c = leb 48 c && leb c 57

-- The digits behind those that spell `acc`; `none` at another character.
abbrev pub read_digits : List ℕ → ℕ → Option ℕ
read_digits [] acc = some acc
read_digits (c ∷ cs) acc =
    let rest = read_digits cs (acc * 10 + (c - 48)) in if is_digit c then rest else none

-- `strconv.ParseInt(s, 10, 64)`: an optional sign, and at least one digit.
abbrev pub unsigned : List ℕ → Option ℕ
unsigned [] = none
unsigned (c ∷ cs) = read_digits (c ∷ cs) 0

abbrev pub above : ℕ → Option ℤ
above n = if ltb n (2 ^ 63) then some (pos n) else none

abbrev pub below : ℕ → Option ℤ
below zero = some (pos 0)
below (suc n) = if ltb n (2 ^ 63) then some (negsuc n) else none

abbrev pub in_range : (ℕ → Option ℤ) → Option ℕ → Option ℤ
in_range f none = none
in_range f (some n) = f n

abbrev pub parse_int : List ℕ → Option ℤ
parse_int [] = none
parse_int (c ∷ cs) =
    if c == 43
    then in_range above (unsigned cs)
    else if c == 45
    then in_range below (unsigned cs)
    else in_range above (unsigned (c ∷ cs))

abbrev pub has_minus : List ℕ → Bool
has_minus [] = false
has_minus (c ∷ cs) = c == 45

-- `strings.ContainsAny(s, "eE")`
abbrev pub has_exponent : List ℕ → Bool
has_exponent [] = false
has_exponent (c ∷ cs) = c == 101 || c == 69 || has_exponent cs

-- What stands before the first `.`, and what stands behind it.
abbrev pub before_point : List ℕ → List ℕ
before_point [] = []
before_point (c ∷ cs) = let rest = before_point cs in if c == 46 then [] else c ∷ rest

abbrev pub after_point : List ℕ → List ℕ
after_point [] = []
after_point (c ∷ cs) = let rest = after_point cs in if c == 46 then cs else rest

-- `w*100000000 + f`
abbrev pub zatoshi : ℤ → ℤ → ℤ
zatoshi (pos n) f = wrap64 (pos (n * 100000000) +ℤ f)
zatoshi (negsuc n) f = wrap64 (negsuc (suc n * 100000000 - 1) +ℤ f)

abbrev pub amount : Option ℤ → Option ℤ → Option ℤ
amount none f = none
amount (some w) none = none
amount (some w) (some f) = if ltb_ℤ (pos (2 ^ 62 / 100000000)) w then none else some (zatoshi w f)

abbrev pub from_halves : List ℕ → List ℕ → Option ℤ
from_halves whole frac =
    if ltb 8 (length frac) || length whole == 0
    then none
    else amount (parse_int whole) (parse_int (frac ++ replicate (8 - length frac) 48))

-- `none` is the result (0, false).
unfoldable pub zat_from_decimal : List ℕ → Option ℤ
zat_from_decimal s =
    if length s == 0 || has_minus s || has_exponent s
    then none
    else from_halves (before_point s) (after_point s)
