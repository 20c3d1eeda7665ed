-- ===== src/RateLimit/Bounded.antt =====
-- What `allow` keeps: the number of peers, and the tokens of each.
use mathlib.Core.Option.{some-injective}
use mathlib.Core.Path.{subst}
use lightwalletd.Common.{
  ℕ, ◌≤◌, ◌<◌, List, [], ◌∷◌, ◌≡◌, refl, sym, arith, true, ◌||◌, ◌⊎◌, inl, inr, Bool-cases, All,
  some, ltb, length,
}
use lightwalletd.Common.Int.{pos, ltb_ℤ}
use lightwalletd.BlockCache.{same_bytes}
use lightwalletd.BlockCache.Holds.{same_bytes_eq, same_bytes_refl}
use lightwalletd.RateLimit.Defs.{
  TokenBucket, Peers, elapsed, bucket_of, delete, sweep, is_empty, oldest_of,
}

module _ {F : Type 0} where
  abbrev pub IsIn : List ℕ → Peers F → Type 0
  IsIn key [] = ⊥
  IsIn key ((k, b) ∷ peers) = (k ≡ key) ⊎ IsIn key peers

  pub length-delete_le : (key : List ℕ) (peers : Peers F) → length (delete key peers) ≤ length peers
  length-delete_le key [] = omega arith
  length-delete_le key ((k, b) ∷ peers) =
      let ih = length-delete_le key peers in
      elim (Bool-cases (same_bytes k key)) [
        | inl same ↦ rw same (omega arith)
        | inr other ↦ rw other (omega arith)
      ]

  pub length-delete_lt :
      (key : List ℕ) (peers : Peers F) → IsIn key peers → length (delete key peers) < length peers
  length-delete_lt key [] h = absurd h
  length-delete_lt key ((k, b) ∷ peers) (inl e) =
      let same : same_bytes k key ≡ true = rw e (same_bytes_refl key) in
      let le = length-delete_le key peers in rw same (omega arith)
  length-delete_lt key ((k, b) ∷ peers) (inr h) =
      let lt = length-delete_lt key peers h in
      elim (Bool-cases (same_bytes k key)) [
        | inl same ↦ rw same (omega arith)
        | inr other ↦ rw other (omega arith)
      ]

  pub bucket_of-IsIn :
      (key : List ℕ) (peers : Peers F) (b : TokenBucket F)
      → bucket_of key peers ≡ some b
      → IsIn key peers
  bucket_of-IsIn key [] b h = absurd (ground arith)
  bucket_of-IsIn key ((k, b') ∷ peers) b h = elim (Bool-cases (same_bytes k key)) [
    | inl same ↦ inl (same_bytes_eq k key same)
    | inr other ↦ inr (bucket_of-IsIn key peers b (rw other at h))
  ]

  oldest_of-IsIn :
      (peers : Peers F) (key : List ℕ) (oldest : ℕ) (found : List ℕ)
      → oldest_of peers key oldest ≡ found
      → (found ≡ key) ⊎ IsIn found peers
  oldest_of-IsIn [] key oldest found e = inl (sym e)
  oldest_of-IsIn ((k, b) ∷ peers) key oldest found e =
      elim (Bool-cases (is_empty key || ltb b.last_seen oldest)) [
        | inl taken ↦ elim (oldest_of-IsIn peers k b.last_seen found (rw taken at e)) [
          | inl same ↦ inr (inl (sym same))
          | inr later ↦ inr (inr later)
        ]
        | inr left ↦ elim (oldest_of-IsIn peers key oldest found (rw left at e)) [
          | inl same ↦ inl same
          | inr later ↦ inr (inr later)
        ]
      ]

  pub found_oldest : (peers : Peers F) → 0 < length peers → IsIn (oldest_of peers [] 0) peers
  found_oldest [] h = absurd (omega arith)
  found_oldest ((k, b) ∷ peers) h = elim (oldest_of-IsIn peers k b.last_seen _ refl) [
    | inl same ↦ inl (sym same)
    | inr later ↦ inr later
  ]

  pub length-sweep_le :
      (now idle : ℕ) (peers : Peers F) → length (sweep now idle peers) ≤ length peers
  unfolding sweep
  length-sweep_le now idle [] = omega arith
  length-sweep_le now idle ((k, b) ∷ peers) =
      let ih = length-sweep_le now idle peers in
      elim (Bool-cases (ltb_ℤ (pos idle) (elapsed now b.last_seen))) [
        | inl gone ↦ rw gone (omega arith)
        | inr stays ↦ rw stays (omega arith)
      ]

  pub All-weaken :
      (P Q : List ℕ × TokenBucket F → Type 0) (peers : Peers F)
      → ((e : List ℕ × TokenBucket F) → P e → Q e)
      → All P peers
      → All Q peers
  All-weaken P Q [] f h = tt
  All-weaken P Q (e ∷ peers) f h = (f e h.0, All-weaken P Q peers f h.1)

  module _ (P : List ℕ × TokenBucket F → Type 0) where
    pub All-delete : (key : List ℕ) (peers : Peers F) → All P peers → All P (delete key peers)
    All-delete key [] h = tt
    All-delete key ((k, b) ∷ peers) h = elim (Bool-cases (same_bytes k key)) [
      | inl same ↦ rw same (All-delete key peers h.1)
      | inr other ↦ rw other (h.0, All-delete key peers h.1)
    ]

    pub All-sweep : (now idle : ℕ) (peers : Peers F) → All P peers → All P (sweep now idle peers)
    unfolding sweep
    All-sweep now idle [] h = tt
    All-sweep now idle ((k, b) ∷ peers) h =
        elim (Bool-cases (ltb_ℤ (pos idle) (elapsed now b.last_seen))) [
          | inl gone ↦ rw gone (All-sweep now idle peers h.1)
          | inr stays ↦ rw stays (h.0, All-sweep now idle peers h.1)
        ]

    pub All-bucket_of :
        (key : List ℕ) (peers : Peers F) (b : TokenBucket F)
        → All P peers
        → bucket_of key peers ≡ some b
        → P (key, b)
    All-bucket_of key [] b h e = absurd (ground arith)
    All-bucket_of key ((k, b') ∷ peers) b h e = elim (Bool-cases (same_bytes k key)) [
      | inl same ↦
          subst (λ x. P (key, x)) (some-injective b' b (rw same at e))
            (subst (λ y. P (y, b')) (same_bytes_eq k key same) h.0)
      | inr other ↦ All-bucket_of key peers b h.1 (rw other at e)
    ]
