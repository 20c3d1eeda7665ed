-- ===== src/Bytestring/Words.antt =====
-- Little-endian words: the shift-and-or loop computes the number that the bytes spell.
use lightwalletd.Common.{
  ℕ, zero, suc, ◌+◌, ◌*◌, ◌/◌, ◌%◌, ◌^◌, ◌≤◌, ◌<◌, List, [], ◌∷◌, ◌≡◌, refl, ap, length, All,
  IsByte, arith, bit_or,
}
use native.Mathlib.Nat.{pow-suc, pow-le-pow_right, mod-eq_of_lt}
use native.Mathlib.Numerals.{towards_suc}
use lightwalletd.Common.Bits.{bit_or_byte}
use lightwalletd.Bytestring.Defs.{le_loop}

-- The `n` low bytes of `v`, lowest first: what `binary.LittleEndian` writes.
unfoldable pub le_bytes : ℕ → ℕ → List ℕ
le_bytes zero v = []
le_bytes (suc n) v = (v % 256) ∷ le_bytes n (v / 256)

-- The number that the bytes spell.
unfoldable pub le_value : List ℕ → ℕ
le_value [] = 0
le_value (b ∷ bs) = b + 256 * le_value bs

pub length-le_bytes : (n v : ℕ) → length (le_bytes n v) ≡ n
unfolding le_bytes
length-le_bytes zero v = refl
length-le_bytes (suc n) v = ap suc (length-le_bytes n (v / 256))

pub le_bytes-IsByte : (n v : ℕ) → All IsByte (le_bytes n v)
unfolding le_bytes
le_bytes-IsByte zero v = tt
le_bytes-IsByte (suc n) v = (omega arith, le_bytes-IsByte n (v / 256))

pub le_value-lt : (bs : List ℕ) → All IsByte bs → le_value bs < 256 ^ length bs
unfolding le_value
le_value-lt [] h = omega arith
le_value-lt (b ∷ bs) h = omega (arith, le_value-lt bs h.1, pow-suc 256 (length bs), h.0)

pow-word : (k : ℕ) → 2 ^ (8 * k) ≡ 256 ^ k
pow-word zero = refl
pow-word (suc k) = rw (eight_more k) (simp towards_suc (omega (arith, pow-word k, pow-suc 256 k)))
  where
    eight_more : (k : ℕ) → 8 * suc k ≡ 8 * k + 8
    eight_more k = omega arith

-- One round of the loop, where the word still has room for a byte.
le_loop_step :
    (k b x : ℕ) → b < 256 → x * 256 < 2 ^ (8 * k) → bit_or (x * 256 % 2 ^ (8 * k)) b ≡ b + 256 * x
le_loop_step k b x hb fits = rw (mod-eq_of_lt fits, bit_or_byte x b hb) (omega arith)

fits_word : (k n x : ℕ) → suc n ≤ k → x < 256 ^ n → x * 256 < 2 ^ (8 * k)
fits_word k n x h lt =
    rw (pow-word k) (omega (arith, pow-suc 256 n, pow-le-pow_right {n = 256} (omega arith) h))

-- On bytes that fit the word nothing is shifted out, so the loop yields the number they spell.
pub le_loop-eq-value :
    (k : ℕ) (bs : List ℕ) → All IsByte bs → length bs ≤ k → le_loop (8 * k) bs ≡ le_value bs
unfolding le_loop le_value
le_loop-eq-value k [] h f = refl
le_loop-eq-value k (b ∷ bs) h f =
    rw (le_loop-eq-value k bs h.1 (omega arith))
      (le_loop_step k b (le_value bs) h.0 (fits_word k (length bs) _ f (le_value-lt bs h.1)))

pub le_value-le_bytes : (n v : ℕ) → v < 256 ^ n → le_value (le_bytes n v) ≡ v
unfolding le_value le_bytes
le_value-le_bytes zero v h = omega arith
le_value-le_bytes (suc n) v h =
    omega (arith, pow-suc 256 n, le_value-le_bytes n (v / 256) (omega (arith, pow-suc 256 n)))

pub le_bytes-le_value : (bs : List ℕ) → All IsByte bs → le_bytes (length bs) (le_value bs) ≡ bs
unfolding le_value le_bytes
le_bytes-le_value [] h = refl
le_bytes-le_value (b ∷ bs) h = ground (arith, le_bytes-le_value bs h.1, h.0)
