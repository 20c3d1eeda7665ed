-- ===== src/RateLimit/Refilled.antt =====
-- A bucket that has had the time to fill up carries no information.
use lightwalletd.Common.{ℕ, ◌+◌, ◌*◌, ◌^◌, ◌≤◌, List, ◌≡◌, refl, not, inl, inr, Bool-cases}
use lightwalletd.Common.Int.{pos}
use lightwalletd.RateLimit.Defs.{Amounts, TokenBucket, RateLimiter, take_from}
use lightwalletd.RateLimit.Kept.{IsAtMost, IsRounded}

module _ {F : Type 0} (a : Amounts F) where
  -- Laws of the refill, for a burst that is a whole number: the conversion to an integer gives it back,
  -- and the time that `evict` waits for fills a bucket from any number of tokens that is not negative,
  -- up to the numbers of 53 bits, which are exact.
  pub record IsFilling : Type 0 where
    pub truncated_whole : (n : ℕ) → n ≤ 2 ^ 53 → a.truncated (a.whole n) ≡ n
    pub fills :
        (n : ℕ) (x : F) (d i : ℕ)
        → IsAtMost a a.zero x
        → 1 ≤ i
        → n * i ≤ 2 ^ 53
        → n * i ≤ d
        → IsAtMost a (a.whole n) (a.plus x (a.quotient (pos d) i))

  -- The settings of a limiter: a whole burst, an interval, and a time to fill up of at most 53 bits.
  pub record IsWhole (burst : ℕ) (r : RateLimiter F) : Type 0 where
    pub is_whole : r.burst ≡ a.whole burst
    pub positive : 1 ≤ r.interval
    pub exact : burst * r.interval ≤ 2 ^ 53

  -- Any bucket of the peer has been idle for so long.
  abbrev pub IsIdle : ℕ → RateLimiter F → List ℕ → List ℕ × TokenBucket F → Type 0
  IsIdle now r key e =
      e.0 ≡ key
      → IsAtMost a a.zero e.1.tokens × (e.1.last_seen + a.truncated r.burst * r.interval ≤ now)

  module _ (order : IsRounded a) (laws : IsFilling) where
    verdict :
        (key : List ℕ) (cost : F) (b : TokenBucket F) (r : RateLimiter F)
        → (take_from a key cost b r).0 ≡ not (a.lt b.tokens cost)
    verdict key cost b r = elim (Bool-cases (a.lt b.tokens cost)) [
      | inl poor ↦ rw poor refl
      | inr rich ↦ rw rich refl
    ]
