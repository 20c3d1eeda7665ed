-- ===== src/Darkside/Active.antt =====
-- The active blocks are read at the heights at which they stand.
use mathlib.Core.Option.{some-injective}
use mathlib.Core.Path.{subst}
use native.Mathlib.Nat.{add-zero}
use lightwalletd.Common.{
  ℕ, zero, suc, ◌+◌, ◌-◌, ◌≤◌, List, [], ◌∷◌, ◌++◌, ◌≡◌, refl, sym, ap, arith, Bool, true, false,
  inl, inr, ◌⊎◌, All, IsByte, Option, none, some, Error, Result, ok, err, ltb, ltb→le,
  if◌then◌else◌, length, take, get_elem?,
}
use lightwalletd.Common.Int.{ℤ, pos, negsuc}
use lightwalletd.Block.{Block, new_block, parse_block, get_height}
use lightwalletd.Block.Height.{HasNoCoinbase, get_height-none}
use lightwalletd.BlockCache.{fatal, panic, no_fuel}
use lightwalletd.Darkside.Defs.{
  Darkside, Outcome, then_next, read_whole, with_height, place_at, add_block_active,
}
use lightwalletd.Darkside.Apply.{apply_blocks}

-- The bytes are read as one block, of this height.
pub record IsActive (at : ℕ) (block : List ℕ) : Type 0 where
  pub full : Block
  pub settled : Block
  pub bytes : All IsByte block
  pub whole : parse_block new_block block ≡ (ok full, [])
  pub height : get_height full ≡ some (pos at, settled)

abbrev pub AreActive : ℕ → List (List ℕ) → Type 0
AreActive h [] = Unit {0}
AreActive h (b ∷ bs) = IsActive h b × AreActive (h + 1) bs

pub IsActive-at :
    (h i : ℕ) (bs : List (List ℕ)) (b : List ℕ)
    → AreActive h bs
    → get_elem? bs i ≡ some b
    → IsActive (h + i) b
IsActive-at h i [] b a e = absurd (ground arith)
IsActive-at h zero (c ∷ bs) b a e =
    subst (λ n. IsActive n b) (sym (add-zero h)) (subst (IsActive h) (some-injective c b e) a.0)
IsActive-at h (suc i) (c ∷ bs) b a e =
    subst (λ n. IsActive n b) (sym (shift h i)) (IsActive-at (h + 1) i bs b a.1 e)
  where
    shift : (m n : ℕ) → m + suc n ≡ m + 1 + n
    shift m n = omega arith

take-AreActive : (h n : ℕ) (bs : List (List ℕ)) → AreActive h bs → AreActive h (take n bs)
take-AreActive h zero bs a = tt
take-AreActive h (suc n) [] a = tt
take-AreActive h (suc n) (b ∷ bs) a = (a.0, take-AreActive (h + 1) n bs a.1)

append-AreActive :
    (h at : ℕ) (bs : List (List ℕ)) (b : List ℕ)
    → AreActive h bs
    → h + length bs ≡ at
    → IsActive at b
    → AreActive h (bs ++ b ∷ [])
append-AreActive h at [] b a e k =
    (subst (λ n. IsActive n b) (let p : at ≡ h = omega arith in p) k, tt)
append-AreActive h at (c ∷ bs) b a e k = (a.0, append-AreActive (h + 1) at bs b a.1 (omega arith) k)

length-take_to : (n : ℕ) (bs : List (List ℕ)) → n ≤ length bs → length (take n bs) ≡ n
length-take_to zero bs h = refl
length-take_to (suc n) [] h = absurd (omega arith)
length-take_to (suc n) (b ∷ bs) h = ap suc (length-take_to n bs (omega arith))

-- One of the blocks is read whole and has no coinbase input.
abbrev pub IsWithoutCoinbase : List (List ℕ) → Type 0
IsWithoutCoinbase [] = ⊥
IsWithoutCoinbase (b ∷ bs) =
    ((full : Block) × (parse_block new_block b ≡ (ok full, [])) × HasNoCoinbase full.vtx)
    ⊎ IsWithoutCoinbase bs

-- After the call on these blocks, unless one without a coinbase input has ended the process, the active
-- blocks stand at their heights, from the same start.
abbrev pub KeepsActive : ℕ → List (List ℕ) → Outcome → Type 0
KeepsActive start blocks (err (fatal m)) = ⊥
KeepsActive start blocks (err panic) = IsWithoutCoinbase blocks
KeepsActive start blocks (err no_fuel) = ⊥
KeepsActive start blocks (ok (e, d)) = (d.start_height ≡ start) × AreActive start d.active_blocks

later-KeepsActive :
    (start : ℕ) (block : List ℕ) (blocks : List (List ℕ)) (o : Outcome)
    → KeepsActive start blocks o
    → KeepsActive start (block ∷ blocks) o
later-KeepsActive start block blocks (err (fatal m)) k = k
later-KeepsActive start block blocks (err panic) k = inr k
later-KeepsActive start block blocks (err no_fuel) k = k
later-KeepsActive start block blocks (ok (e, d)) k = k

either :
    (start : ℕ) (blocks : List (List ℕ)) (b : Bool) (x y : Outcome)
    → (b ≡ true → KeepsActive start blocks x)
    → (b ≡ false → KeepsActive start blocks y)
    → KeepsActive start blocks (if b then x else y)
either start blocks true x y p q = p refl
either start blocks false x y p q = q refl

place_at-KeepsActive :
    (block : List ℕ) (d : Darkside) (h : ℤ) (b b' : Block)
    → AreActive d.start_height d.active_blocks
    → All IsByte block
    → parse_block new_block block ≡ (ok b, [])
    → get_height b ≡ some (h, b')
    → KeepsActive d.start_height (block ∷ []) (place_at block d h)
place_at-KeepsActive block d (negsuc n) b b' a bytes p g = (refl, a)
place_at-KeepsActive block d (pos n) b b' a bytes p g =
    either d.start_height (block ∷ []) (ltb (d.start_height + length d.active_blocks) n) _ _
      (λ e. (refl, a))
      λ near.
        either d.start_height (block ∷ []) (ltb n d.start_height) _ _ (λ e. (refl, a))
          λ above.
            let l = ltb→le (d.start_height + length d.active_blocks) n near in
            let m = ltb→le n d.start_height above in
            let size = length-take_to (n - d.start_height) d.active_blocks (omega (arith, l, m)) in
            (
              refl,
              append-AreActive d.start_height n (take (n - d.start_height) d.active_blocks) block
                  (take-AreActive d.start_height (n - d.start_height) d.active_blocks a)
                  (omega (arith, size, m))
                  (record { full = b; settled = b'; bytes = bytes; whole = p; height = g }),
            )

read_whole-KeepsActive :
    (block : List ℕ) (d : Darkside) (r : Result Error Block × List ℕ)
    → AreActive d.start_height d.active_blocks
    → All IsByte block
    → parse_block new_block block ≡ r
    → KeepsActive d.start_height (block ∷ []) (read_whole d r (λ b h. place_at block d h))
read_whole-KeepsActive block d (err e, rest) a bytes p = (refl, a)
read_whole-KeepsActive block d (ok b, c ∷ rest) a bytes p = (refl, a)
read_whole-KeepsActive block d (ok b, []) a bytes p = go (get_height b) refl
  where
    go :
        (o : Option (ℤ × Block))
        → get_height b ≡ o
        → KeepsActive d.start_height (block ∷ []) (with_height (λ b' h. place_at block d h) o)
    go none g = inl (b, p, get_height-none b g)
    go (some (h, b')) g = place_at-KeepsActive block d h b b' a bytes p g

add_block_active-KeepsActive :
    (block : List ℕ) (d : Darkside)
    → AreActive d.start_height d.active_blocks
    → All IsByte block
    → KeepsActive d.start_height (block ∷ []) (add_block_active block d)
unfolding add_block_active
add_block_active-KeepsActive block d a bytes =
    read_whole-KeepsActive block d (parse_block new_block block) a bytes refl

then_next-KeepsActive :
    (start : ℕ) (block : List ℕ) (blocks : List (List ℕ)) (o : Outcome) (next : Darkside → Outcome)
    → KeepsActive start (block ∷ []) o
    → ((d : Darkside)
        → d.start_height ≡ start
        → AreActive start d.active_blocks
        → KeepsActive start blocks (next d))
    → KeepsActive start (block ∷ blocks) (then_next o next)
then_next-KeepsActive start block blocks (err (fatal m)) next k f = k
then_next-KeepsActive start block blocks (err panic) next (inl k) f = inl k
then_next-KeepsActive start block blocks (err panic) next (inr k) f = absurd k
then_next-KeepsActive start block blocks (err no_fuel) next k f = k
then_next-KeepsActive start block blocks (ok (some e, d)) next k f = k
then_next-KeepsActive start block blocks (ok (none, d)) next k f =
    later-KeepsActive start block blocks (next d) (f d k.0 k.1)

-- The staged blocks, applied in the order of their arrival, leave every active block at the height that
-- is read from it, on success and on an error; a process that ends has met one of them that is read
-- whole and has no coinbase input.
pub apply_blocks-KeepsActive :
    (blocks : List (List ℕ)) (d : Darkside)
    → AreActive d.start_height d.active_blocks
    → All (All IsByte) blocks
    → KeepsActive d.start_height blocks (apply_blocks blocks d)
unfolding apply_blocks
apply_blocks-KeepsActive [] d a bytes = (refl, a)
apply_blocks-KeepsActive (b ∷ bs) d a bytes =
    then_next-KeepsActive d.start_height b bs (add_block_active b d) (apply_blocks bs)
      (add_block_active-KeepsActive b d a bytes.0)
      λ d' e a'.
        subst (λ s. KeepsActive s bs (apply_blocks bs d')) e
          (apply_blocks-KeepsActive bs d' (subst (λ s. AreActive s d'.active_blocks) (sym e) a')
            bytes.1)
