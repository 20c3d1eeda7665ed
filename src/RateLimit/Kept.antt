-- ===== src/RateLimit/Kept.antt =====
-- `allow` keeps the number of peers and the tokens of each within their bounds.
use lightwalletd.Common.{
  ℕ, ◌-◌, ◌*◌, ◌≤◌, ◌<◌, List, [], ◌∷◌, ◌≡◌, refl, arith, false, inl, inr, Bool-cases, All, Option,
  none, some, ltb, ltb→lt, ltb→le, leb, length,
}
use lightwalletd.Common.Int.{pos, ltb_ℤ}
use lightwalletd.RateLimit.Defs.{
  Amounts, TokenBucket, RateLimiter, elapsed, bucket_of, delete, sweep, oldest_of, evict, capped,
  refilled, full_bucket, take_from, with_room, allow_found, swept, allow, yed_rate_idle_sweep,
}
use lightwalletd.RateLimit.Bounded.{
  length-delete_le, length-delete_lt, bucket_of-IsIn, found_oldest, length-sweep_le, All-delete,
  All-weaken, All-sweep, All-bucket_of,
}

module _ {F : Type 0} (a : Amounts F) where
  -- `x <= y`
  abbrev pub IsAtMost : F → F → Type 0
  IsAtMost x y = a.lt y x ≡ false

  -- Laws of `<`, `+` and `-` with rounding: the order, a difference of a smaller number is not
  -- negative, taking what is not negative away does not add, and adding the tokens of a time that is
  -- not negative takes nothing away.
  pub record IsRounded : Type 0 where
    pub at_most_refl : (x : F) → IsAtMost x x
    pub at_most_trans : (x y z : F) → IsAtMost x y → IsAtMost y z → IsAtMost x z
    pub minus_positive : (x c : F) → IsAtMost c x → IsAtMost a.zero (a.minus x c)
    pub minus_at_most : (x c : F) → IsAtMost a.zero c → IsAtMost (a.minus x c) x
    pub plus_at_least : (x : F) (d i : ℕ) → 1 ≤ i → IsAtMost x (a.plus x (a.quotient (pos d) i))

  -- Between no token and the burst, and seen no later than at the time.
  abbrev pub IsWithin : F → ℕ → List ℕ × TokenBucket F → Type 0
  IsWithin burst at e =
      IsAtMost a.zero e.1.tokens × IsAtMost e.1.tokens burst × (e.1.last_seen ≤ at)

  pub record IsBounded (at : ℕ) (r : RateLimiter F) : Type 0 where
    pub peers : length r.peers ≤ r.max_peers
    pub tokens : All (IsWithin r.burst at) r.peers
    pub burst : IsAtMost a.zero r.burst
    pub interval : 1 ≤ r.interval

  IsBounded-later : (at now : ℕ) (r : RateLimiter F) → at ≤ now → IsBounded at r → IsBounded now r
  IsBounded-later at now r h k = record {
    peers = k.peers;
    tokens =
        All-weaken (IsWithin r.burst at) (IsWithin r.burst now) r.peers
          (λ e w. (w.0, w.1, omega (arith, w.2, h))) k.tokens;
    burst = k.burst;
    interval = k.interval;
  }

  module _ (laws : IsRounded) where
    put-IsBounded :
        (now : ℕ) (key : List ℕ) (b : TokenBucket F) (r : RateLimiter F)
        → IsBounded now r
        → IsWithin r.burst now (key, b)
        → length (delete key r.peers) < r.max_peers
        → IsBounded now (record r { peers = (key, b) ∷ delete key r.peers })
    put-IsBounded now key b r k w l = record {
      peers = omega arith;
      tokens = (w, All-delete (IsWithin r.burst now) key r.peers k.tokens);
      burst = k.burst;
      interval = k.interval;
    }

    take_from-IsBounded :
        (now : ℕ) (key : List ℕ) (cost : F) (b : TokenBucket F) (r : RateLimiter F)
        → IsBounded now r
        → IsAtMost a.zero cost
        → IsWithin r.burst now (key, b)
        → length (delete key r.peers) < r.max_peers
        → IsBounded now (take_from a key cost b r).1
    take_from-IsBounded now key cost b r k c w l = elim (Bool-cases (a.lt b.tokens cost)) [
      | inl poor ↦ rw poor (put-IsBounded now key b r k w l)
      | inr rich ↦ rw rich (
          put-IsBounded now key (record b { tokens = a.minus b.tokens cost }) r k
            (
              laws.minus_positive b.tokens cost rich,
              laws.at_most_trans (a.minus b.tokens cost) b.tokens r.burst
                  (laws.minus_at_most b.tokens cost c) w.1,
              w.2,
            )
            l)
    ]

    capped-IsWithin :
        (key : List ℕ) (burst x : F) (now : ℕ)
        → IsAtMost a.zero burst
        → IsAtMost a.zero x
        → IsWithin burst now (key, record { tokens = capped a burst x; last_seen = now })
    capped-IsWithin key burst x now p q = elim (Bool-cases (a.lt burst x)) [
      | inl over ↦ rw over (p, laws.at_most_refl burst, omega arith)
      | inr under ↦ rw under (q, under, omega arith)
    ]

    evict-IsBounded :
        (now : ℕ) (r : RateLimiter F)
        → IsBounded now r
        → 0 < r.max_peers
        → IsBounded now (evict a now r)
          × (length (evict a now r).peers < r.max_peers)
          × ((evict a now r).burst ≡ r.burst)
          × ((evict a now r).max_peers ≡ r.max_peers)
    unfolding evict
    evict-IsBounded now r k h =
        let left = sweep now (a.truncated r.burst * r.interval) r.peers in
        let less = length-sweep_le now (a.truncated r.burst * r.interval) r.peers in
        let within =
          All-sweep (IsWithin r.burst now) now (a.truncated r.burst * r.interval) r.peers
            k.tokens in
        elim (Bool-cases (ltb (length left) r.max_peers)) [
          | inl room ↦
              let l = ltb→lt (length left) r.max_peers room in
              rw room (
                record {
                  peers = omega (arith, l);
                  tokens = within;
                  burst = k.burst;
                  interval = k.interval;
                },
                l,
                refl,
                refl,
              )
          | inr full ↦
              let l = ltb→le (length left) r.max_peers full in
              let shorter =
                length-delete_lt (oldest_of left [] 0) left
                  (found_oldest left (omega (arith, l, h))) in
              rw full (
                record {
                  peers = omega (arith, shorter, less, k.peers);
                  tokens = All-delete (IsWithin r.burst now) (oldest_of left [] 0) left within;
                  burst = k.burst;
                  interval = k.interval;
                },
                omega (arith, shorter, less, k.peers),
                refl,
                refl,
              )
        ]

    swept-IsBounded :
        (now : ℕ) (r : RateLimiter F) → IsBounded now r → IsBounded now (swept a now r)
    swept-IsBounded now r k =
        elim (Bool-cases (ltb_ℤ (pos yed_rate_idle_sweep) (elapsed now r.last_swep))) [
          | inl due ↦ rw due (record {
            peers = omega (arith, length-sweep_le now yed_rate_idle_sweep r.peers, k.peers);
            tokens = All-sweep (IsWithin r.burst now) now yed_rate_idle_sweep r.peers k.tokens;
            burst = k.burst;
            interval = k.interval;
          })
          | inr early ↦ rw early k
        ]

    max_peers-swept : (now : ℕ) (r : RateLimiter F) → (swept a now r).max_peers ≡ r.max_peers
    max_peers-swept now r = ground arith

    new_peer-IsBounded :
        (now : ℕ) (key : List ℕ) (cost : F) (r : RateLimiter F)
        → IsBounded now r
        → IsAtMost a.zero cost
        → 0 < r.max_peers
        → IsBounded now (take_from a key cost (full_bucket a r now) (with_room a now r)).1
    new_peer-IsBounded now key cost r k c h = elim (Bool-cases (leb r.max_peers (length r.peers))) [
      | inl full ↦
          let (k', shorter, same, size) = evict-IsBounded now r k h in
          rw full (
            take_from-IsBounded now key cost (full_bucket a r now) (evict a now r) k' c
              (rw same (k.burst, laws.at_most_refl r.burst, omega arith))
              (omega (arith, shorter, size, length-delete_le key (evict a now r).peers)))
      | inr room ↦
          let l : length r.peers < r.max_peers = ground arith in
          rw room (
            take_from-IsBounded now key cost (full_bucket a r now) r k c
              (k.burst, laws.at_most_refl r.burst, omega arith)
              (omega (arith, l, length-delete_le key r.peers)))
    ]

    known_peer-IsBounded :
        (now : ℕ) (key : List ℕ) (cost : F) (r : RateLimiter F) (b : TokenBucket F)
        → IsBounded now r
        → IsAtMost a.zero cost
        → bucket_of key r.peers ≡ some b
        → IsBounded now (take_from a key cost (refilled a r now b) r).1
    known_peer-IsBounded now key cost r b k c e =
        let (positive, below, seen) =
          All-bucket_of (IsWithin r.burst now) key r.peers b k.tokens e in
        let forward : elapsed now b.last_seen ≡ pos (now - b.last_seen) = ground (arith, seen) in
        let more = laws.plus_at_least b.tokens (now - b.last_seen) r.interval k.interval in
        take_from-IsBounded now key cost (refilled a r now b) r k c
          (capped-IsWithin key r.burst _ now k.burst
            (rw forward (laws.at_most_trans a.zero b.tokens _ positive more)))
          (omega (arith, k.peers, length-delete_lt key r.peers (bucket_of-IsIn key r.peers b e)))

    allow_found-IsBounded :
        (now : ℕ) (key : List ℕ) (cost : F) (r : RateLimiter F) (o : Option (TokenBucket F))
        → IsBounded now r
        → IsAtMost a.zero cost
        → 0 < r.max_peers
        → bucket_of key r.peers ≡ o
        → IsBounded now (allow_found a now key cost r o).1
    allow_found-IsBounded now key cost r none k c h e = new_peer-IsBounded now key cost r k c h
    allow_found-IsBounded now key cost r (some b) k c h e =
        known_peer-IsBounded now key cost r b k c e

    -- A call keeps at most the bound of peers, and the tokens of each between none and the burst, if the
    -- clock has not gone back since each was last seen, the arithmetic is rounded by these laws and a
    -- call's cost is not negative; and no peer was last seen later than the call.
    pub allow-IsBounded :
        (at now : ℕ) (key : List ℕ) (cost : F) (r : RateLimiter F)
        → IsBounded at r
        → at ≤ now
        → IsAtMost a.zero cost
        → 0 < r.max_peers
        → IsBounded now (allow a now key cost r).1
    unfolding allow
    allow-IsBounded at now key cost r k l c h =
        let r' = swept a now r in
        allow_found-IsBounded now key cost r' (bucket_of key r'.peers)
          (swept-IsBounded now r (IsBounded-later at now r l k)) c (rw (max_peers-swept now r) h)
          refl
