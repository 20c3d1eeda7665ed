-- ===== src/RateLimit/Tests.antt =====
-- A limiter whose tokens are integers and one peer, and the theorems at it.
use lightwalletd.Common.{ℕ, ◌/◌, List, [], ◌∷◌, ◌≡◌, refl, arith, true, false, none, some}
use lightwalletd.Common.Int.{ℤ, pos, negsuc, pos_part, ◌+ℤ◌, ◌-ℤ◌, ltb_ℤ}
use lightwalletd.Common.Text.{codes}
use lightwalletd.BlockCache.{same_bytes}
use lightwalletd.RateLimit.Defs.{Amounts, RateLimiter, allow}
use lightwalletd.RateLimit.PeerKey.{Networks, Context, trusted_proxy, limited}
use lightwalletd.RateLimit.Kept.{IsRounded, IsBounded, allow-IsBounded}
use lightwalletd.RateLimit.Forged.{limited_forged}

abbrev integers : Amounts ℤ
integers = record {
  lt = ltb_ℤ;
  plus = λ x y. x +ℤ y;
  minus = λ x y. x -ℤ y;
  whole = pos;
  quotient = λ d i. elim d [ pos n ↦ pos (n / i) | negsuc n ↦ negsuc (n / i) ];
  truncated = pos_part;
  zero = pos 0;
}

integers-IsRounded : IsRounded integers
unfolding ◌+ℤ◌ ◌-ℤ◌
integers-IsRounded = record {
  at_most_refl = λ x. ground arith;
  at_most_trans = λ x y z p q. ground arith;
  minus_positive = λ x c h. ground arith;
  minus_at_most = λ x c h. ground arith;
  plus_at_least = λ x d i one. ground arith;
}

-- 20 tokens, one a second; one peer has used two of its tokens.
abbrev limiter : RateLimiter ℤ
limiter = record {
  burst = pos 20;
  interval = 1000000000;
  peers = (codes "10.0.0.1", record { tokens = pos 18; last_seen = 5000000000 }) ∷ [];
  last_swep = 0;
  max_peers = 10000;
}

limiter-IsBounded : IsBounded integers 5000000000 limiter
limiter-IsBounded = record {
  peers = omega arith;
  tokens = ((refl, refl, omega arith), tt);
  burst = refl;
  interval = omega arith;
}

-- A second call at once takes one more token.
takes_one : (allow integers 5000000000 (codes "10.0.0.1") (pos 1) limiter).0 ≡ true
unfolding allow ◌+ℤ◌
takes_one = refl

-- A clock that goes back takes tokens away: five seconds, or 20 tokens, earlier there are none left.
takes_none :
    (allow integers 0 (codes "10.0.0.1") (pos 1) (record limiter { interval = 250000000 })).0
    ≡ false
unfolding allow ◌+ℤ◌
takes_none = refl

allow-IsBounded_example :
    IsBounded integers 6000000000 (allow integers 6000000000 (codes "10.0.0.2") (pos 1) limiter).1
allow-IsBounded_example =
    allow-IsBounded integers integers-IsRounded 5000000000 6000000000 (codes "10.0.0.2") (pos 1)
      limiter limiter-IsBounded (omega arith) refl (omega arith)

-- Addresses without ports, and no trusted network.
abbrev networks : Networks (List ℕ) (List ℕ)
networks = record {
  split_host_port = λ addr. none;
  parse_ip = λ addr. some addr;
  parse_cidr = λ c. some c;
  contains = same_bytes;
}

abbrev plain : Context
plain = record { peer = some (codes "10.0.0.1"); metadata = none }

abbrev forged : Context
forged = record { peer = some (codes "10.0.0.1"); metadata = some (codes "8.8.8.8" ∷ [], []) }

limited_forged_example :
    limited networks integers (codes "127.0.0.1" ∷ []) forged 6000000000 (pos 1) (some limiter)
    ≡ limited networks integers (codes "127.0.0.1" ∷ []) plain 6000000000 (pos 1) (some limiter)
unfolding trusted_proxy
limited_forged_example =
    limited_forged networks integers (codes "127.0.0.1" ∷ []) plain forged 6000000000 (pos 1)
      (some limiter) refl refl
