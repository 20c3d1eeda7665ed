-- ===== src/Fee/Exact.antt =====
-- `zatFromDecimal` converts exactly.
use native.Mathlib.Nat.{
  zero-add, add-suc, zero-mul, add-zero, pow-zero, mul-one, pow-suc, mul_assoc, add-mul, add_assoc,
  mul_comm, mul-le-mul_right,
}
use lightwalletd.Common.{
  ℕ, zero, suc, ◌+◌, ◌-◌, ◌*◌, ◌/◌, ◌^◌, ◌≤◌, ◌<◌, List, [], ◌∷◌, ◌++◌, ◌≡◌, refl, ap, ◌∙◌, true,
  false, none, some, ltb, ◌==◌, if◌then◌else◌, length, replicate, All, arith, length-append,
  length-replicate, All-append,
}
use lightwalletd.Common.Int.{pos, ◌+ℤ◌}
use lightwalletd.Fee.Decimal.{
  is_digit, read_digits, above, parse_int, has_minus, has_exponent, before_point, after_point,
  amount, from_halves, zat_from_decimal,
}

-- The decimal digits are the characters 48 to 57.
abbrev pub IsDigit : ℕ → Type 0
IsDigit c = (48 ≤ c) × (c ≤ 57)

-- The number that digits spell, by their places.
abbrev pub digits_value : List ℕ → ℕ
digits_value [] = 0
digits_value (c ∷ cs) = (c - 48) * 10 ^ length cs + digits_value cs

digit_test : (c : ℕ) → IsDigit c → is_digit c ≡ true
digit_test c h = ground arith

carry : (a d p v : ℕ) → (a * 10 + d) * p + v ≡ a * (p * 10) + (d * p + v)
carry a d p v =
    rw (add-mul (a * 10) d p, mul_assoc a 10 p)
      (omega (arith, mul_comm p 10, add_assoc (a * (10 * p)) (d * p) v))

pow-add : (a n m : ℕ) → a ^ (n + m) ≡ a ^ n * a ^ m
pow-add a n zero = rw (add-zero n, pow-zero a, mul-one (a ^ n)) refl
pow-add a n (suc m) =
    rw (add-suc n m, pow-suc a (n + m), pow-suc a m, pow-add a n m) (mul_assoc (a ^ n) (a ^ m) a)

read_digits_value :
    (ds : List ℕ) (acc : ℕ)
    → All IsDigit ds
    → read_digits ds acc ≡ some (acc * 10 ^ length ds + digits_value ds)
read_digits_value [] acc h = ap some (omega arith)
read_digits_value (c ∷ cs) acc h =
    rw (digit_test c h.0, read_digits_value cs (acc * 10 + (c - 48)) h.1, pow-suc 10 (length cs))
      (ap some (carry acc (c - 48) (10 ^ length cs) (digits_value cs)))

digits_value_lt : (ds : List ℕ) → All IsDigit ds → digits_value ds < 10 ^ length ds
digits_value_lt [] h = omega arith
digits_value_lt (c ∷ cs) h =
    let rest = digits_value_lt cs h.1 in
    let most = mul-le-mul_right {m = c - 48} {n = 9} (10 ^ length cs) (omega arith) in
    omega (arith, pow-suc 10 (length cs))

digits_value-append :
    (xs bs : List ℕ) → digits_value (xs ++ bs) ≡ digits_value xs * 10 ^ length bs + digits_value bs
digits_value-append [] bs = omega arith
digits_value-append (c ∷ xs) bs =
    rw
      (
        length-append xs bs,
        pow-add 10 (length xs) (length bs),
        digits_value-append xs bs,
        add-mul ((c - 48) * 10 ^ length xs) (digits_value xs) (10 ^ length bs),
        mul_assoc (c - 48) (10 ^ length xs) (10 ^ length bs),
      )
      (omega arith)

digits_value-zeros : (k : ℕ) → digits_value (replicate k 48) ≡ 0
digits_value-zeros zero = refl
digits_value-zeros (suc k) = omega (arith, digits_value-zeros k)

digits-zeros : (k : ℕ) → All IsDigit (replicate k 48)
digits-zeros zero = tt
digits-zeros (suc k) = (omega arith, digits-zeros k)

not_sign : (c : ℕ) → IsDigit c → (s : ℕ) → s < 48 → (c == s) ≡ false
not_sign c h s k = ground arith

not_letter : (c : ℕ) → IsDigit c → (s : ℕ) → 57 < s → (c == s) ≡ false
not_letter c h s k = ground arith

parse_int-digits :
    (c : ℕ) (cs : List ℕ)
    → All IsDigit (c ∷ cs)
    → parse_int (c ∷ cs) ≡ above (digits_value (c ∷ cs))
parse_int-digits c cs h =
    rw
      (
        not_sign c h.0 43 (omega arith),
        not_sign c h.0 45 (omega arith),
        read_digits_value (c ∷ cs) 0 h,
        zero-mul (10 ^ length (c ∷ cs)),
        zero-add,
      )
      refl

before_point-digits :
    (whole frac : List ℕ) → All IsDigit whole → before_point (whole ++ 46 ∷ frac) ≡ whole
before_point-digits [] frac h = refl
before_point-digits (c ∷ cs) frac h =
    rw (not_sign c h.0 46 (omega arith), before_point-digits cs frac h.1) refl

after_point-digits :
    (whole frac : List ℕ) → All IsDigit whole → after_point (whole ++ 46 ∷ frac) ≡ frac
after_point-digits [] frac h = refl
after_point-digits (c ∷ cs) frac h =
    rw (not_sign c h.0 46 (omega arith)) (after_point-digits cs frac h.1)

has_exponent-digits :
    (whole frac : List ℕ)
    → All IsDigit whole
    → All IsDigit frac
    → has_exponent (whole ++ 46 ∷ frac) ≡ false
has_exponent-digits [] [] h k = refl
has_exponent-digits [] (c ∷ cs) h k =
    rw (not_letter c k.0 101 (omega arith), not_letter c k.0 69 (omega arith))
      (has_exponent-digits [] cs h k.1)
has_exponent-digits (c ∷ cs) frac h k =
    rw (not_letter c h.0 101 (omega arith), not_letter c h.0 69 (omega arith))
      (has_exponent-digits cs frac h.1 k)

above_small : (n : ℕ) → n < 10 ^ 8 → above n ≡ some (pos n)
above_small n h = ground arith

padded_value :
    (frac : List ℕ) (k : ℕ) → digits_value (frac ++ replicate k 48) ≡ digits_value frac * 10 ^ k
padded_value frac k =
    digits_value-append frac (replicate k 48)
    ∙ rw (length-replicate {A = ℕ} k 48, digits_value-zeros k) (add-zero _)

padded_lt :
    (frac : List ℕ)
    → length frac ≤ 8
    → All IsDigit frac
    → digits_value frac * 10 ^ (8 - length frac) < 10 ^ 8
padded_lt frac h k =
    let zeros = replicate (8 - length frac) 48 in
    let all = All-append IsDigit frac zeros k (digits-zeros _) in
    let bound = digits_value_lt (frac ++ zeros) all in
    let eight : length (frac ++ zeros) ≡ 8 =
      omega (arith, length-append frac zeros, length-replicate {A = ℕ} (8 - length frac) 48) in
    rw (← padded_value frac (8 - length frac)) (rw eight at bound)

padded :
    (frac : List ℕ)
    → length frac ≤ 8
    → All IsDigit frac
    → parse_int (frac ++ replicate (8 - length frac) 48)
      ≡ some (pos (digits_value frac * 10 ^ (8 - length frac)))
padded [] h k = refl
padded (c ∷ cs) h k =
    let zeros = replicate (8 - length (c ∷ cs)) 48 in
    parse_int-digits c (cs ++ zeros) (All-append IsDigit (c ∷ cs) zeros k (digits-zeros _))
    ∙ ap above (padded_value (c ∷ cs) (8 - length (c ∷ cs)))
    ∙ above_small _ (padded_lt (c ∷ cs) h k)

halves :
    (whole frac : List ℕ)
    → (length whole == 0) ≡ false
    → ltb 8 (length frac) ≡ false
    → from_halves whole frac
      ≡ amount (parse_int whole) (parse_int (frac ++ replicate (8 - length frac) 48))
halves whole frac a b = rw (a, b) refl

from_tests :
    (s : List ℕ)
    → (length s == 0) ≡ false
    → has_minus s ≡ false
    → has_exponent s ≡ false
    → zat_from_decimal s ≡ from_halves (before_point s) (after_point s)
unfolding zat_from_decimal
from_tests s a b c = rw (a, b, c) refl

amount_exact :
    (w f : ℕ)
    → f < 10 ^ 8
    → amount (above w) (some (pos f))
      ≡ (if ltb (2 ^ 62 / 10 ^ 8) w then none else some (pos (w * 10 ^ 8 + f)))
unfolding ◌+ℤ◌
amount_exact w f h = ground arith

-- The node's decimal amounts: at least one digit, a point and at most eight digits are so many
-- zatoshi, and refused exactly if the whole part is past 2^62 / 10^8.
pub zat_from_decimal_exact :
    (whole frac : List ℕ)
    → All IsDigit whole
    → All IsDigit frac
    → 1 ≤ length whole
    → length frac ≤ 8
    → zat_from_decimal (whole ++ 46 ∷ frac) ≡ (
        if ltb (2 ^ 62 / 10 ^ 8) (digits_value whole)
        then none
        else some (pos (digits_value whole * 10 ^ 8 + digits_value frac * 10 ^ (8 - length frac))))
unfolding zat_from_decimal
zat_from_decimal_exact [] frac h k n m = absurd (omega arith)
zat_from_decimal_exact (c ∷ cs) frac h k n m =
    from_tests (c ∷ cs ++ 46 ∷ frac) (ground arith) (not_sign c h.0 45 (omega arith))
      (has_exponent-digits (c ∷ cs) frac h k)
    ∙ (λ i.
        from_halves (before_point-digits (c ∷ cs) frac h i) (after_point-digits (c ∷ cs) frac h i))
    ∙ halves (c ∷ cs) frac (ground arith) (ground arith)
    ∙ (λ i. amount (parse_int-digits c cs h i) (padded frac m k i))
    ∙ amount_exact (digits_value (c ∷ cs)) _ (padded_lt frac m k)
