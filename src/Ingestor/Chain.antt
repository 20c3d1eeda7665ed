-- ===== src/Ingestor/Chain.antt =====
-- Blocks that follow one another by their hashes.
use mathlib.Core.Option.{some-injective}
use mathlib.Core.Path.{subst}
use lightwalletd.Common.{
  ℕ, zero, suc, List, [], ◌∷◌, ◌++◌, ◌≡◌, refl, ap, arith, Option, none, some, true, false, inl,
  inr, Bool-cases, take, get_elem?,
}
use lightwalletd.Block.{CompactBlock}
use lightwalletd.BlockCache.{BlockCache, same_bytes, hash_mismatch}
use lightwalletd.BlockCache.Frames.{Entry}
use lightwalletd.BlockCache.Cut.{last_hash}

-- Whether a block can stand behind the hash.
abbrev pub IsNext : Option (List ℕ) → CompactBlock → Type 0
IsNext none b = Unit {0}
IsNext (some h) b = same_bytes h b.prev_hash ≡ true

abbrev pub IsLinked : Option (List ℕ) → List Entry → Type 0
IsLinked o [] = Unit {0}
IsLinked o (e ∷ es) = IsNext o e.0 × IsLinked (some e.0.hash) es

-- The hash in front of what is appended.
abbrev pub hash_after : Option (List ℕ) → List Entry → Option (List ℕ)
hash_after o [] = o
hash_after o (e ∷ es) = hash_after (some e.0.hash) es

hash_after-last :
    (h : List ℕ) (e : Entry) (es : List Entry) → hash_after (some h) (e ∷ es) ≡ last_hash (e ∷ es)
hash_after-last h e [] = refl
hash_after-last h e (f ∷ es) = hash_after-last e.0.hash f es

pub hash_after-none : (es : List Entry) → hash_after none es ≡ last_hash es
hash_after-none [] = refl
hash_after-none (e ∷ []) = refl
hash_after-none (e ∷ f ∷ es) = hash_after-last e.0.hash f es

pub append-IsLinked :
    (o : Option (List ℕ)) (es : List Entry) (e : Entry)
    → IsLinked o es
    → IsNext (hash_after o es) e.0
    → IsLinked o (es ++ e ∷ [])
append-IsLinked o [] e a n = (n, tt)
append-IsLinked o (f ∷ es) e a n = (a.0, append-IsLinked (some f.0.hash) es e a.1 n)

pub take-IsLinked :
    (o : Option (List ℕ)) (n : ℕ) (es : List Entry) → IsLinked o es → IsLinked o (take n es)
take-IsLinked o zero es a = tt
take-IsLinked o (suc n) [] a = tt
take-IsLinked o (suc n) (e ∷ es) a = (a.0, take-IsLinked (some e.0.hash) n es a.1)

-- In a linked list each block follows what stands in front of it.
pub IsNext-at :
    (o : Option (List ℕ)) (i : ℕ) (es : List Entry) (e : Entry)
    → IsLinked o es
    → get_elem? es i ≡ some e
    → IsNext (hash_after o (take i es)) e.0
IsNext-at o i [] e a h = absurd (ground arith)
IsNext-at o zero (f ∷ es) e a h = subst (λ x. IsNext o x.0) (some-injective f e h) a.0
IsNext-at o (suc i) (f ∷ es) e a h = IsNext-at (some f.0.hash) i es e a.1 h

pub hash_after-take-suc :
    (o : Option (List ℕ)) (i : ℕ) (es : List Entry) (e : Entry)
    → get_elem? es i ≡ some e
    → hash_after o (take (suc i) es) ≡ some e.0.hash
hash_after-take-suc o i [] e h = absurd (ground arith)
hash_after-take-suc o zero (f ∷ es) e h = ap (λ x. some x.0.hash) (some-injective f e h)
hash_after-take-suc o (suc i) (f ∷ es) e h = hash_after-take-suc (some f.0.hash) i es e h

pub take-suc :
    (i : ℕ) (es : List Entry) (e : Entry)
    → get_elem? es i ≡ some e
    → take (suc i) es ≡ take i es ++ e ∷ []
take-suc i [] e h = absurd (ground arith)
take-suc zero (f ∷ es) e h = ap (λ x. x ∷ []) (some-injective f e h)
take-suc (suc i) (f ∷ es) e h = ap (λ l. f ∷ l) (take-suc i es e h)

-- `HashMismatch` decides it.
pub mismatch_false :
    (c : BlockCache) (o : Option (List ℕ)) (b : CompactBlock)
    → c.latest_hash ≡ o
    → IsNext o b
    → hash_mismatch c b.prev_hash ≡ false
unfolding hash_mismatch
mismatch_false c none b e n = rw (e, hash_mismatch) refl
mismatch_false c (some h) b e n = rw (e, hash_mismatch, n) refl

pub mismatch_true :
    (c : BlockCache) (h : List ℕ) (b : CompactBlock)
    → c.latest_hash ≡ some h
    → same_bytes h b.prev_hash ≡ false
    → hash_mismatch c b.prev_hash ≡ true
unfolding hash_mismatch
mismatch_true c h b e n = rw (e, hash_mismatch, n) refl

pub IsNext-match :
    (c : BlockCache) (o : Option (List ℕ)) (b : CompactBlock)
    → c.latest_hash ≡ o
    → hash_mismatch c b.prev_hash ≡ false
    → IsNext o b
unfolding hash_mismatch
IsNext-match c none b e n = tt
IsNext-match c (some h) b e n = elim (Bool-cases (same_bytes h b.prev_hash)) [
  | inl same ↦ same
  | inr other ↦ absurd (let n' : true ≡ false = rw (hash_mismatch, e, other) at n in ground arith)
]
