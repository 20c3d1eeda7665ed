-- ===== src/RateLimit/Defs.antt =====
-- frontend/yellowback_ratelimit.go: the token buckets. The operations on `float64` that the limiter uses
-- are an interface. A time is the nanoseconds since a start, and the duration between two of them is
-- signed. The map of peers is a list of its entries, in the order in which a `range` over it runs. The
-- lock makes each operation one step.
use lightwalletd.Common.{
  ℕ, ◌*◌, List, [], ◌∷◌, Bool, true, false, ◌||◌, Option, none, some, ltb, leb, if◌then◌else◌,
  length,
}
use lightwalletd.Common.Int.{ℤ, pos, sub_ℕ, ltb_ℤ}
use lightwalletd.BlockCache.{same_bytes}

-- Amounts of tokens: the finite numbers, with `<`, `+` and `-`; `whole n` is `float64(n)`, `quotient d i`
-- is `float64(d) / float64(i)`, and `truncated` the conversion of what is not negative to an integer.
pub record Amounts (F : Type 0) : Type 0 where
  pub lt : F → F → Bool
  pub plus : F → F → F
  pub minus : F → F → F
  pub whole : ℕ → F
  pub quotient : ℤ → ℕ → F
  pub truncated : F → ℕ
  pub zero : F

pub record TokenBucket (F : Type 0) : Type 0 where
  pub tokens : F
  pub last_seen : ℕ

abbrev pub Peers : Type 0 → Type 0
Peers F = List (List ℕ × TokenBucket F)

pub record RateLimiter (F : Type 0) : Type 0 where
  pub burst : F
  pub interval : ℕ
  pub peers : Peers F
  pub last_swep : ℕ
  pub max_peers : ℕ

abbrev pub yed_rate_idle_sweep : ℕ
yed_rate_idle_sweep = 600000000000

abbrev pub yed_rate_max_peers : ℕ
yed_rate_max_peers = 10000

-- `now.Sub(last)`
abbrev pub elapsed : ℕ → ℕ → ℤ
elapsed now last = sub_ℕ now last

abbrev pub is_empty : List ℕ → Bool
is_empty [] = true
is_empty (c ∷ s) = false

module _ {F : Type 0} where
  -- `r.peers[key]`, `delete(r.peers, key)` and `r.peers[key] = b`.
  abbrev pub bucket_of : List ℕ → Peers F → Option (TokenBucket F)
  bucket_of key [] = none
  bucket_of key ((k, b) ∷ peers) =
      let rest = bucket_of key peers in if same_bytes k key then some b else rest

  abbrev pub delete : List ℕ → Peers F → Peers F
  delete key [] = []
  delete key ((k, b) ∷ peers) =
      let rest = delete key peers in if same_bytes k key then rest else (k, b) ∷ rest

  abbrev pub put_bucket : List ℕ → TokenBucket F → Peers F → Peers F
  put_bucket key b peers = (key, b) ∷ delete key peers

  -- `sweep`
  unfoldable pub sweep : ℕ → ℕ → Peers F → Peers F
  sweep now idle [] = []
  sweep now idle ((k, b) ∷ peers) =
      let rest = sweep now idle peers in
      if ltb_ℤ (pos idle) (elapsed now b.last_seen) then rest else (k, b) ∷ rest

  -- The loop for the least recently seen peer, with `oldestKey` and `oldest`.
  abbrev pub oldest_of : Peers F → List ℕ → ℕ → List ℕ
  oldest_of [] oldest_key oldest = oldest_key
  oldest_of ((k, b) ∷ peers) oldest_key oldest =
      let taken = oldest_of peers k b.last_seen in
      let left = oldest_of peers oldest_key oldest in
      if is_empty oldest_key || ltb b.last_seen oldest then taken else left

  module _ (a : Amounts F) where
    abbrev pub new_rate_limiter : ℕ → ℕ → RateLimiter F
    new_rate_limiter burst interval = record {
      burst = a.whole burst;
      interval = interval;
      peers = [];
      last_swep = 0;
      max_peers = yed_rate_max_peers;
    }

    -- `evict`
    unfoldable pub evict : ℕ → RateLimiter F → RateLimiter F
    unfolding sweep
    evict now r =
        let full = a.truncated r.burst * r.interval in
        let r' = record r { peers = sweep now full r.peers } in
        if ltb (length r'.peers) r.max_peers
        then r'
        else record r' { peers = delete (oldest_of r'.peers [] 0) r'.peers }

    -- The peer's bucket at this time: the tokens since it was last seen are added, up to the burst.
    abbrev pub capped : F → F → F
    capped burst tokens = if a.lt burst tokens then burst else tokens

    abbrev pub refilled : RateLimiter F → ℕ → TokenBucket F → TokenBucket F
    refilled r now b = record {
      tokens = capped r.burst (a.plus b.tokens (a.quotient (elapsed now b.last_seen) r.interval));
      last_seen = now;
    }

    abbrev pub full_bucket : RateLimiter F → ℕ → TokenBucket F
    full_bucket r now = record { tokens = r.burst; last_seen = now }

    -- The tokens are taken, if there are enough.
    abbrev pub take_from : List ℕ → F → TokenBucket F → RateLimiter F → Bool × RateLimiter F
    take_from key cost b r =
        let left = record b { tokens = a.minus b.tokens cost } in
        if a.lt b.tokens cost
        then (false, record r { peers = put_bucket key b r.peers })
        else (true, record r { peers = put_bucket key left r.peers })

    abbrev pub with_room : ℕ → RateLimiter F → RateLimiter F
    with_room now r = if leb r.max_peers (length r.peers) then evict now r else r

    abbrev pub allow_found :
        ℕ → List ℕ → F → RateLimiter F → Option (TokenBucket F) → Bool × RateLimiter F
    allow_found now key cost r none = take_from key cost (full_bucket r now) (with_room now r)
    allow_found now key cost r (some b) = take_from key cost (refilled r now b) r

    abbrev pub swept : ℕ → RateLimiter F → RateLimiter F
    swept now r =
        if ltb_ℤ (pos yed_rate_idle_sweep) (elapsed now r.last_swep)
        then record r { peers = sweep now yed_rate_idle_sweep r.peers; last_swep = now }
        else r

    -- `allow`
    unfoldable pub allow : ℕ → List ℕ → F → RateLimiter F → Bool × RateLimiter F
    unfolding evict sweep
    allow now key cost r = let r = swept now r in allow_found now key cost r (bucket_of key r.peers)
