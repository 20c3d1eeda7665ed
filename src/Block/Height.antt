-- ===== src/Block/Height.antt =====
-- `Block.GetHeight`: the number that BIP 34 puts at the front of the coinbase script.
use mathlib.Core.Path.{fun_ext, subst}
use lightwalletd.Common.{
  ℕ, zero, suc, ◌-◌, ◌^◌, ◌≤◌, ◌<◌, List, [], ◌∷◌, ◌++◌, ◌≡◌, refl, sym, ap, ◌∙◌, arith, Result, ok,
  err, some, none, inl, inr, Option-cases, Bool-cases, ltb, ◌==◌, if◌then◌else◌,
}
use mathlib.Core.Option
use mathlib.Core.Option.{some-injective, none-ne-some}
use lightwalletd.Common.Int.{ℤ, pos, negsuc, to_int64}
use lightwalletd.Scan.{pure, ◌>>=◌}
use lightwalletd.Scan.Local.{Reads, Reads->>=, Reads-map}
use lightwalletd.Bytestring.{read, script_number, read_script_int64}
use lightwalletd.Bytestring.Bytes.{Reads-read, word-Codec, word}
use lightwalletd.Bytestring.Words.{le_bytes}
use lightwalletd.Transaction.{TxIn, Transaction}
use lightwalletd.Block.Defs.{
  Block, height_of, genesis_target_difficulty, first_script, script_in, coinbase_script,
  found_height, height_from, get_height,
}

-- A push of the `k` low bytes of `n` is read as `n`, whatever follows it in the script.
script_number_push :
    (k : ℕ) → 1 ≤ k → k ≤ 8 → script_number k ≡ (word 8 k >>= λ n. pure (to_int64 n))
unfolding script_number word ◌>>=◌
script_number_push k lo hi = fun_ext λ s. ground arith

Reads-push :
    (k n : ℕ)
    → 1 ≤ k
    → k ≤ 8
    → n < 256 ^ k
    → Reads read_script_int64 (k ∷ le_bytes k n) (to_int64 n)
Reads-push k n lo hi h =
    unfold read_script_int64 in
    Reads->>= (read 1) _ (Reads-read (k ∷ []) 1 refl) (
      rw (script_number_push k lo hi)
        (Reads-map (word 8 k) to_int64 ((word-Codec 8 k hi).reads n h)))

-- What a height can be.
abbrev pub IsHeight : ℤ → Type 0
IsHeight (pos n) = n < 2 ^ 32
IsHeight (negsuc n) = n ≡ 0

height_of-IsHeight : (r : Result (Unit {0}) ℤ) → IsHeight (height_of r)
height_of-IsHeight (err e) = refl
height_of-IsHeight (ok (negsuc n)) = refl
height_of-IsHeight (ok (pos n)) = elim (Bool-cases (ltb (2 ^ 32 - 1) n)) [
  | inl big ↦ rw big refl
  | inr fits ↦ elim (Bool-cases (n == genesis_target_difficulty)) [
    | inl genesis ↦ rw (fits, genesis) (omega arith)
    | inr other ↦ rw (fits, other) (ground arith)
  ]
]

-- What holds of the answer of `GetHeight` on the block `b`.
record IsSettled (b : Block) (r : ℤ × Block) : Type 0 where
  height : IsHeight r.0
  again : get_height r.1 ≡ some r
  same_hdr : r.1.hdr ≡ b.hdr
  same_vtx : r.1.vtx ≡ b.vtx

found_height-IsSettled :
    (b : Block) (x : ℤ)
    → IsHeight x
    → get_height b ≡ some (found_height b x)
    → IsSettled b (found_height b x)
unfolding found_height
found_height-IsSettled b (pos n) v e = record {
  height = v;
  again = unfold get_height height_from in refl;
  same_hdr = refl;
  same_vtx = refl;
}
found_height-IsSettled b (negsuc n) v e = record {
  height = refl;
  again = e;
  same_hdr = refl;
  same_vtx = refl;
}

no_script : (b : Block) → coinbase_script b ≡ none → height_from b (negsuc 0) ≡ none
unfolding height_from
no_script b e = rw (e, height_from)

from_script :
    (b : Block) (script : List ℕ)
    → coinbase_script b ≡ some script
    → height_from b (negsuc 0) ≡ some (found_height b (height_of (read_script_int64 script).0))
unfolding height_from
from_script b script e = rw (e, height_from)

-- The branches on the height that is known.
height_from-IsSettled :
    (b : Block) (h : ℤ) {r : ℤ × Block}
    → IsHeight h
    → get_height b ≡ height_from b h
    → height_from b h ≡ some r
    → IsSettled b r
unfolding height_from
height_from-IsSettled b (pos n) v k e =
    subst (IsSettled b) (some-injective _ _ e)
      (record { height = v; again = k; same_hdr = refl; same_vtx = refl })
height_from-IsSettled b (negsuc (suc n)) v k e = absurd (omega arith)
height_from-IsSettled b (negsuc zero) v k e = elim (Option-cases (coinbase_script b)) [
  | inl missing ↦ absurd (none-ne-some _ (sym (no_script b missing) ∙ e))
  | inr (script, found) ↦
      subst (IsSettled b) (some-injective _ _ (sym (from_script b script found) ∙ e)) (
        found_height-IsSettled b _ (height_of-IsHeight (read_script_int64 script).0)
          (k ∙ from_script b script found))
]

-- On a block whose known height is -1 or a uint32, `GetHeight`, where it does not panic, answers -1 or
-- a uint32; a second call gives the same answer and changes nothing, and
-- neither changes the header or the transactions.
pub get_height_settles :
    (b b' : Block) (h : ℤ)
    → IsHeight b.height
    → get_height b ≡ some (h, b')
    → IsHeight h × (get_height b' ≡ some (h, b')) × (b'.hdr ≡ b.hdr) × (b'.vtx ≡ b.vtx)
get_height_settles b b' h v e =
    let s =
      height_from-IsSettled b b.height {r = (h, b')} v (unfold get_height in refl)
        (unfold get_height in e) in
    (s.height, s.again, s.same_hdr, s.same_vtx)

coinbase_height :
    (b : Block) (script : List ℕ)
    → b.height ≡ negsuc 0
    → coinbase_script b ≡ some script
    → get_height b ≡ some (found_height b (height_of (read_script_int64 script).0))
unfolding get_height
coinbase_height b script k e = ap (height_from b) k ∙ from_script b script e

found_height-pos :
    (b : Block) (n : ℕ)
    → n < 2 ^ 32
    → (found_height b (height_of (ok (to_int64 n)))).0
      ≡ (if n == genesis_target_difficulty then pos 0 else pos n)
unfolding found_height
found_height-pos b n h = ground arith

-- On a block whose height is not known yet, a coinbase script that begins, as BIP 34 has it, with a
-- push of the height, below 2^32, in `k` bytes from 1 to 8 gives that height, but for the number that marks the genesis block, which gives 0.
pub get_height-push :
    (b : Block) (k n : ℕ) (more : List ℕ)
    → 1 ≤ k
    → k ≤ 8
    → n < 256 ^ k
    → n < 2 ^ 32
    → b.height ≡ negsuc 0
    → coinbase_script b ≡ some (k ∷ (le_bytes k n ++ more))
    → Option.map (λ r. r.0) (get_height b)
      ≡ some (if n == genesis_target_difficulty then pos 0 else pos n)
get_height-push b k n more lo hi fits word known e =
    ap (Option.map (λ r. r.0)) (
      coinbase_height b _ known e
      ∙ ap (λ r. some (found_height b (height_of r.0))) ((Reads-push k n lo hi fits).on more))
    ∙ ap some (found_height-pos b n word)

-- The first transaction, if there is one, has no input.
abbrev pub HasNoCoinbase : List Transaction → Type 0
HasNoCoinbase [] = Unit {0}
HasNoCoinbase (tx ∷ txs) = tx.transparent_inputs ≡ []

script_in-none : (txs : List Transaction) → script_in txs ≡ none → HasNoCoinbase txs
unfolding script_in first_script
script_in-none [] h = tt
script_in-none (tx ∷ txs) h = go tx.transparent_inputs refl h
  where
    go :
        (is : List TxIn)
        → tx.transparent_inputs ≡ is
        → first_script is ≡ none
        → tx.transparent_inputs ≡ []
    go [] e h = e
    go (i ∷ is) e h = absurd (none-ne-some i.script_sig (sym h))

height_from-none : (b : Block) (h : ℤ) → height_from b h ≡ none → HasNoCoinbase b.vtx
unfolding height_from coinbase_script
height_from-none b (pos n) h = absurd (none-ne-some _ (sym h))
height_from-none b (negsuc (suc n)) h = absurd (none-ne-some _ (sym h))
height_from-none b (negsuc zero) h = elim (Option-cases (script_in b.vtx)) [
  | inl e ↦ script_in-none b.vtx e
  | inr (script, e) ↦ absurd (let h' = rw (height_from, e) at h in none-ne-some _ (sym h'))
]

-- `GetHeight` panics only for want of a coinbase input.
pub get_height-none : (b : Block) → get_height b ≡ none → HasNoCoinbase b.vtx
unfolding get_height
get_height-none b h = height_from-none b b.height h
