-- ===== src/BlockRange/Sent.antt =====
-- What `GetBlockRange` sends.
use mathlib.Core.Path.{subst}
use native.Mathlib.Nat.{add-zero}
use lightwalletd.Common.{
  ℕ, zero, suc, ◌+◌, ◌-◌, List, [], ◌∷◌, ◌≡◌, refl, sym, ap, ◌∙◌, arith, Option, Bool, true, false,
  Bool-cases, inl, inr, ◌⊎◌, Result, ok, err, ltb, if◌then◌else◌,
}
use lightwalletd.Block.{CompactBlock}
use lightwalletd.BlockCache.{Halt, BlockCache}
use lightwalletd.Fetch.{BlockReply}
use lightwalletd.BlockRange.Defs.{
  GetError, finished, failed, cancelled, Ending, Sent, height_at, sent_before, select, asked,
  range_loop, get_block_range,
}

-- The next `n` heights from one on, upwards or downwards.
abbrev pub upwards : ℕ → ℕ → List ℕ
upwards zero h = []
upwards (suc n) h = h ∷ upwards n (h + 1)

abbrev pub downwards : ℕ → ℕ → List ℕ
downwards zero h = []
downwards (suc n) h = h ∷ downwards n (h - 1)

-- The heights from one end to the other, both included.
abbrev pub heights : ℕ → ℕ → List ℕ
heights start end =
    if ltb end start then downwards (start - end + 1) start else upwards (end - start + 1) start

-- The heights of the next `n` rounds of the loop.
unfoldable pub rounds : ℕ → ℕ → ℕ → ℕ → List ℕ
rounds start end zero t = []
rounds start end (suc n) t = height_at start end t ∷ rounds start end n (t + 1)

rounds_up :
    (start end n t : ℕ) → ltb end start ≡ false → rounds start end n t ≡ upwards n (start + t)
unfolding rounds
rounds_up start end zero t up = refl
rounds_up start end (suc n) t up =
    let here : height_at start end t ≡ start + t = rw up refl in
    let next : start + (t + 1) ≡ start + t + 1 = omega arith in
    ap (λ h. h ∷ rounds start end n (t + 1)) here
    ∙ ap (λ hs. (start + t) ∷ hs) (rounds_up start end n (t + 1) up ∙ ap (upwards n) next)

rounds_down :
    (start end n t : ℕ) → ltb end start ≡ true → rounds start end n t ≡ downwards n (start - t)
unfolding rounds
rounds_down start end zero t down = refl
rounds_down start end (suc n) t down =
    let here : height_at start end t ≡ start - t = rw down refl in
    let next : start - (t + 1) ≡ start - t - 1 = omega arith in
    ap (λ h. h ∷ rounds start end n (t + 1)) here
    ∙ ap (λ hs. (start - t) ∷ hs) (rounds_down start end n (t + 1) down ∙ ap (downwards n) next)

-- The number of rounds.
abbrev pub width : ℕ → ℕ → ℕ
width start end = if ltb end start then start - end + 1 else end - start + 1

pub rounds-heights : (start end : ℕ) → rounds start end (width start end) 0 ≡ heights start end
rounds-heights start end = elim (Bool-cases (ltb end start)) [
  | inl down ↦
      let here : start - 0 ≡ start = omega arith in
      rw down
        (rounds_down start end (start - end + 1) 0 down ∙ ap (downwards (start - end + 1)) here)
  | inr up ↦
      rw up (
        rounds_up start end (end - start + 1) 0 up
        ∙ ap (upwards (end - start + 1)) (add-zero start))
]

module _ (unmarshal : List ℕ → Option CompactBlock) (sha256 : List ℕ → List ℕ) where
  module _ (seen : ℕ → BlockCache × BlockReply) (done : ℕ → Bool) where
    abbrev pub at_height : ℕ → Result Halt (Result GetError CompactBlock × Option ℕ)
    at_height h = asked unmarshal sha256 seen done h

    -- How a range ends before these heights, in the round `t`: with nil if none are left, with the
    -- error of the first, or because the context is done.
    abbrev pub IsEnd : List ℕ → ℕ → Ending → Type 0
    IsEnd hs t finished = hs ≡ []
    IsEnd [] t (failed e) = ⊥
    IsEnd (h ∷ hs) t (failed e) = (r : Option ℕ) × (at_height h ≡ ok (err e, r))
    IsEnd hs t cancelled = done t ≡ true

    -- What is sent for these heights, from the round `t` on: each block is the one of its height.
    abbrev pub IsSent : List ℕ → ℕ → List CompactBlock → Ending → Type 0
    IsSent hs t [] ending = IsEnd hs t ending
    IsSent [] t (b ∷ bs) ending = ⊥
    IsSent (h ∷ hs) t (b ∷ bs) ending =
        ((r : Option ℕ) × (at_height h ≡ ok (ok b, r)))
        × (done t ≡ false)
        × IsSent hs (t + 1) bs ending

    -- The process is halted by one of the heights.
    abbrev pub IsHalted : List ℕ → Halt → Type 0
    IsHalted [] x = ⊥
    IsHalted (h ∷ hs) x = (at_height h ≡ err x) ⊎ IsHalted hs x

    abbrev pub IsRun : List ℕ → ℕ → Result Halt Sent → Type 0
    IsRun hs t (ok (blocks, ending)) = IsSent hs t blocks ending
    IsRun hs t (err x) = IsHalted hs x

    ended-IsRun :
        (t : ℕ) (b : Bool) → done t ≡ b → IsRun [] t (ok ([], if b then cancelled else finished))
    ended-IsRun t true e = e
    ended-IsRun t false e = refl

    sent-IsRun :
        (h : ℕ) (hs : List ℕ) (t : ℕ) (b : CompactBlock) (r : Option ℕ) (rest : Result Halt Sent)
        → at_height h ≡ ok (ok b, r)
        → done t ≡ false
        → IsRun hs (t + 1) rest
        → IsRun (h ∷ hs) t (sent_before unmarshal sha256 b rest)
    sent-IsRun h hs t b r (err x) e d k = inr k
    sent-IsRun h hs t b r (ok (blocks, ending)) e d k = ((r, e), d, k)

    select-IsRun :
        (h : ℕ) (hs : List ℕ) (t : ℕ) (b : Bool)
        (x : Result Halt (Result GetError CompactBlock × Option ℕ)) (rest : Result Halt Sent)
        → at_height h ≡ x
        → done t ≡ b
        → IsRun hs (t + 1) rest
        → IsRun (h ∷ hs) t (select unmarshal sha256 b x rest)
    select-IsRun h hs t b (err x) rest e d k = inl e
    select-IsRun h hs t true (ok (err x, r)) rest e d k = d
    select-IsRun h hs t false (ok (err x, r)) rest e d k = (r, e)
    select-IsRun h hs t true (ok (ok b, r)) rest e d k = d
    select-IsRun h hs t false (ok (ok b, r)) rest e d k = sent-IsRun h hs t b r rest e d k

    range_loop-IsRun :
        (start end n t : ℕ)
        → IsRun (rounds start end n t) t (range_loop unmarshal sha256 seen done start end n t)
    unfolding range_loop rounds
    range_loop-IsRun start end zero t = ended-IsRun t (done t) refl
    range_loop-IsRun start end (suc n) t =
        select-IsRun (height_at start end t) (rounds start end n (t + 1)) t (done t) _ _ refl refl
          (range_loop-IsRun start end n (t + 1))

    pub range_width :
        (start end : ℕ)
        → get_block_range unmarshal sha256 seen done start end
          ≡ range_loop unmarshal sha256 seen done start end (width start end) 0
    unfolding get_block_range
    range_width start end = elim (Bool-cases (ltb end start)) [
      | inl down ↦ rw down refl
      | inr up ↦ rw up refl
    ]

    -- Whatever the cache and the node answer and whenever the caller leaves, the blocks of the heights
    -- from the start to the end, one by one upwards, or downwards if the end is below the start, are
    -- sent in this order, until all are sent and nil ends the range, or one height's error ends it, or
    -- the context is done, or a height halts the process.
    pub get_block_range-IsRun :
        (start end : ℕ)
        → IsRun (heights start end) 0 (get_block_range unmarshal sha256 seen done start end)
    get_block_range-IsRun start end =
        subst (λ hs. IsRun hs 0 (get_block_range unmarshal sha256 seen done start end))
          (rounds-heights start end)
          (subst (IsRun (rounds start end (width start end) 0) 0) (sym (range_width start end))
            (range_loop-IsRun start end (width start end) 0))
