-- ===== src/Common/Bits.antt =====
-- `x << 8 | b` as a sum: the bit facts that the little-endian readers rest on.
use Prim.Native.Nat.{
  ℕ, zero, suc, ◌+◌, ◌*◌, ◌/◌, ◌%◌, ◌^◌, ◌≤◌, ◌<◌, max, bit_or, digits, bit_or-bitwise,
}
use mathlib.Core.Path.{◌≡◌, refl, ap}
use native.Mathlib.Nat.{pow-suc}
use native.Mathlib.Omega.{arith}

abbrev or_digits : ℕ → ℕ → ℕ → ℕ
or_digits n a b = digits (λ b. b) max n a b

or_digits_fuel : (n m a b : ℕ) → a ≤ n → a ≤ m → or_digits n a b ≡ or_digits m a b
or_digits_fuel zero zero a b p q = refl
or_digits_fuel zero (suc m) zero b p q = refl
or_digits_fuel zero (suc m) (suc a) b p q = absurd (omega arith)
or_digits_fuel (suc n) zero zero b p q = refl
or_digits_fuel (suc n) zero (suc a) b p q = absurd (omega arith)
or_digits_fuel (suc n) (suc m) zero b p q = refl
or_digits_fuel (suc n) (suc m) (suc a) b p q =
    omega (arith, or_digits_fuel n m (suc a / 2) (b / 2) (omega arith) (omega arith))

zero-bit_or : (b : ℕ) → bit_or 0 b ≡ b
zero-bit_or b = bit_or-bitwise 0 b

-- One binary digit of `|`.
bit_or_step : (a b : ℕ) → bit_or a b ≡ bit_or (a / 2) (b / 2) * 2 + max (a % 2) (b % 2)
bit_or_step zero b = omega (arith, zero-bit_or b, zero-bit_or (b / 2))
bit_or_step (suc a) b = omega (
  arith,
  bit_or-bitwise (suc a) b,
  bit_or-bitwise (suc a / 2) (b / 2),
  or_digits_fuel a (suc a / 2) (suc a / 2) (b / 2) (omega arith) (omega arith),
)

bit_or-zero_fuel : (n a : ℕ) → a ≤ n → bit_or a 0 ≡ a
bit_or-zero_fuel n zero h = refl
bit_or-zero_fuel zero (suc a) h = absurd (omega arith)
bit_or-zero_fuel (suc n) (suc a) h =
    omega (arith, bit_or_step (suc a) 0, bit_or-zero_fuel n (suc a / 2) (omega arith))

-- One more bit on the left of a sum.
join_step : (p q b : ℕ) → p ≡ q * 2 → bit_or q (b / 2) ≡ q + b / 2 → bit_or p b ≡ p + b
join_step p q b e h = ground (arith, bit_or_step p b)

join_bits : (k p q b : ℕ) → p ≡ q * 2 ^ k → b < 2 ^ k → bit_or p b ≡ p + b
join_bits zero p q b e h = ground (arith, bit_or-zero_fuel p p)
join_bits (suc k) p q b e h =
    join_step p (q * 2 ^ k) b (omega (arith, e, ap (λ (t : ℕ). q * t) (pow-suc 2 k)))
      (join_bits k (q * 2 ^ k) q (b / 2) refl (omega (arith, pow-suc 2 k)))

-- `(q << 8) | b` for a byte `b`.
pub bit_or_byte : (q b : ℕ) → b < 256 → bit_or (q * 256) b ≡ q * 256 + b
bit_or_byte q b h = join_bits 8 (q * 256) q b refl h
