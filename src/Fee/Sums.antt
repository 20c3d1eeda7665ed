-- ===== src/Fee/Sums.antt =====
-- `FeeParts` without the machine's arithmetic.
use native.Mathlib.Nat.{zero-add}
use lightwalletd.Common.{
  ℕ, ◌+◌, ◌*◌, ◌%◌, ◌^◌, ◌≤◌, ◌<◌, List, [], ◌∷◌, ◌≡◌, refl, ap, Bool, true, false, ◌&&◌, ◌||◌, not,
  Option, none, some, ltb, leb, if◌then◌else◌, length, arith, Bool-cases, inl, inr, ltb→le,
}
use lightwalletd.Common.Int.{
  ℤ, pos, negsuc, ◌+ℤ◌, ◌-ℤ◌, ltb_ℤ, to_int64, to_int64-to_uint64, pos_part, neg_part, eq_of_parts,
  +ℤ_parts, -ℤ_parts,
}
use lightwalletd.Transaction.{TxOut, JoinSplit, Transaction}
use lightwalletd.Fee.Defs.{
  max_money, minus_max_money, wrap64, Parts, prevouts_of, sum_outputs, sum_join_splits, parts_from,
  fee_parts,
}

-- The amounts that the code bounds.
abbrev pub outputs_are_money : List TxOut → Bool
outputs_are_money [] = true
outputs_are_money (out ∷ outs) = leb out.value max_money && outputs_are_money outs

abbrev pub join_splits_are_money : List JoinSplit → Bool
join_splits_are_money [] = true
join_splits_are_money (js ∷ jss) =
    leb js.vpub_new max_money && leb js.vpub_old max_money && join_splits_are_money jss

abbrev pub balance_is_money : ℤ → Bool
balance_is_money (pos n) = leb n max_money
balance_is_money (negsuc n) = ltb n max_money

-- The sums over all integers.
abbrev pub output_total : List TxOut → ℕ
output_total [] = 0
output_total (out ∷ outs) = out.value + output_total outs

abbrev pub new_total : List JoinSplit → ℕ
new_total [] = 0
new_total (js ∷ jss) = js.vpub_new + new_total jss

abbrev pub old_total : List JoinSplit → ℕ
old_total [] = 0
old_total (js ∷ jss) = js.vpub_old + old_total jss

abbrev pub exact_parts : Transaction → Option Parts
exact_parts tx =
    if outputs_are_money tx.transparent_outputs
      && balance_is_money tx.value_balance
      && join_splits_are_money tx.join_splits
    then some (record {
      prevouts = prevouts_of tx.transparent_inputs;
      value_out = output_total tx.transparent_outputs;
      shielded_in =
          tx.value_balance +ℤ (pos (new_total tx.join_splits) -ℤ pos (old_total tx.join_splits));
    })
    else none

sum_outputs_exact :
    (outs : List TxOut) (acc : ℕ)
    → acc + length outs * max_money < 2 ^ 64
    → sum_outputs outs acc
      ≡ (if outputs_are_money outs then some (acc + output_total outs) else none)
unfolding sum_outputs
sum_outputs_exact [] acc h = ground arith
sum_outputs_exact (out ∷ outs) acc h = elim (Bool-cases (ltb max_money out.value)) [
  | inl a ↦ ground arith
  | inr a ↦
      ground
        (arith, sum_outputs_exact outs ((acc + out.value) % 2 ^ 64) (omega (arith, ltb→le _ _ a)))
]

pub to_int64-small : (n : ℕ) → n ≤ max_money → to_int64 n ≡ pos n
to_int64-small n h = ground arith

-- Sums that leave the range of `int64` alone do not wrap.
pub wrap64-add :
    (a b : ℤ)
    → pos_part a + pos_part b < 2 ^ 63
    → neg_part a + neg_part b < 2 ^ 63
    → wrap64 (a +ℤ b) ≡ a +ℤ b
wrap64-add a b h k = to_int64-to_uint64 (a +ℤ b) (unfold ◌+ℤ◌ in ground arith)

pub wrap64-sub :
    (a b : ℤ)
    → pos_part a + neg_part b < 2 ^ 63
    → neg_part a + pos_part b < 2 ^ 63
    → wrap64 (a -ℤ b) ≡ a -ℤ b
wrap64-sub a b h k = to_int64-to_uint64 (a -ℤ b) (unfold ◌-ℤ◌ in ground arith)

pub pos_part-sub : (a b : ℕ) → (pos_part (pos a -ℤ pos b) ≤ a) × (neg_part (pos a -ℤ pos b) ≤ b)
unfolding ◌-ℤ◌
pos_part-sub a b = ground arith

moved_exact :
    (acc : ℤ) (new old : ℕ)
    → new ≤ max_money
    → old ≤ max_money
    → pos_part acc + max_money < 2 ^ 63
    → neg_part acc + max_money < 2 ^ 63
    → wrap64 (acc +ℤ wrap64 (to_int64 new -ℤ to_int64 old)) ≡ acc +ℤ (pos new -ℤ pos old)
moved_exact acc new old h k a b =
    let (p, q) = pos_part-sub new old in
    rw
      (
        to_int64-small new h,
        to_int64-small old k,
        wrap64-sub (pos new) (pos old) (omega arith) (omega arith),
      )
      (wrap64-add acc (pos new -ℤ pos old) (omega arith) (omega arith))

pub parts_add :
    (a b : ℤ)
    → (pos_part (a +ℤ b) ≤ pos_part a + pos_part b) × (neg_part (a +ℤ b) ≤ neg_part a + neg_part b)
unfolding ◌+ℤ◌
parts_add a b = ground arith

add_moved :
    (acc : ℤ) (a b c d : ℕ)
    → (acc +ℤ (pos a -ℤ pos b)) +ℤ (pos c -ℤ pos d) ≡ acc +ℤ (pos (a + c) -ℤ pos (b + d))
add_moved acc a b c d = eq_of_parts _ _ (
    omega (
      arith,
      +ℤ_parts (acc +ℤ (pos a -ℤ pos b)) (pos c -ℤ pos d),
      +ℤ_parts acc (pos a -ℤ pos b),
      +ℤ_parts acc (pos (a + c) -ℤ pos (b + d)),
      -ℤ_parts (pos a) (pos b),
      -ℤ_parts (pos c) (pos d),
      -ℤ_parts (pos (a + c)) (pos (b + d)),
    ))

in_bounds :
    (a b : ℕ) → (ltb max_money a || ltb max_money b) ≡ false → (a ≤ max_money) × (b ≤ max_money)
in_bounds a b h = ground arith

sum_join_splits_exact :
    (jss : List JoinSplit) (acc : ℤ)
    → pos_part acc + length jss * max_money < 2 ^ 63
    → neg_part acc + length jss * max_money < 2 ^ 63
    → sum_join_splits jss acc ≡ (
        if join_splits_are_money jss
        then some (acc +ℤ (pos (new_total jss) -ℤ pos (old_total jss)))
        else none)
unfolding sum_join_splits
sum_join_splits_exact [] acc h k =
    ap some
      (eq_of_parts _ _ (omega (arith, +ℤ_parts acc (pos 0 -ℤ pos 0), -ℤ_parts (pos 0) (pos 0))))
sum_join_splits_exact (js ∷ jss) acc h k =
    elim (Bool-cases (ltb max_money js.vpub_new || ltb max_money js.vpub_old)) [
      | inl a ↦ ground arith
      | inr a ↦
          let (n, o) = in_bounds js.vpub_new js.vpub_old a in
          let acc' = acc +ℤ (pos js.vpub_new -ℤ pos js.vpub_old) in
          let (p, q) = parts_add acc (pos js.vpub_new -ℤ pos js.vpub_old) in
          let (p', q') = pos_part-sub js.vpub_new js.vpub_old in
          let rest = sum_join_splits_exact jss acc' (omega arith) (omega arith) in
          let moved = moved_exact acc js.vpub_new js.vpub_old n o (omega arith) (omega arith) in
          let total = add_moved acc js.vpub_new js.vpub_old (new_total jss) (old_total jss) in
          rw (a, moved, rest, total) (ground arith)
    ]

balance_in_bounds :
    (b : ℤ) → (ltb_ℤ (pos max_money) b || ltb_ℤ b minus_max_money) ≡ not (balance_is_money b)
balance_in_bounds (pos n) = ground arith
balance_in_bounds (negsuc n) = ground arith

pub balance_parts :
    (b : ℤ) → balance_is_money b ≡ true → (pos_part b ≤ max_money) × (neg_part b ≤ max_money)
balance_parts (pos n) h = ground arith
balance_parts (negsuc n) h = ground arith

parts_from_exact :
    (tx : Transaction) (a b c : Bool) (v : ℕ) (i : ℤ)
    → balance_is_money tx.value_balance ≡ b
    → (b ≡ true → sum_join_splits tx.join_splits tx.value_balance ≡ (if c then some i else none))
    → parts_from tx (if a then some v else none) ≡ (
        if a && b && c
        then some (record {
          prevouts = prevouts_of tx.transparent_inputs;
          value_out = v;
          shielded_in = i;
        })
        else none)
parts_from_exact tx false b c v i e s = refl
parts_from_exact tx true false c v i e s = rw (balance_in_bounds tx.value_balance, e) refl
parts_from_exact tx true true true v i e s = rw (balance_in_bounds tx.value_balance, e, s refl) refl
parts_from_exact tx true true false v i e s =
    rw (balance_in_bounds tx.value_balance, e, s refl) refl

-- With at most 8784 outputs and 4391 JoinSplits, no sum of `FeeParts` wraps: it reports the exact
-- totals if every amount is at most MAX_MONEY, and nothing otherwise.
pub fee_parts_exact :
    (tx : Transaction)
    → length tx.transparent_outputs ≤ 8784
    → length tx.join_splits ≤ 4391
    → fee_parts tx ≡ exact_parts tx
unfolding fee_parts
fee_parts_exact tx h k =
    rw (sum_outputs_exact tx.transparent_outputs 0 (omega arith), zero-add)
      (parts_from_exact tx (outputs_are_money tx.transparent_outputs)
        (balance_is_money tx.value_balance) (join_splits_are_money tx.join_splits)
        (output_total tx.transparent_outputs) _ refl
        λ b.
          let (p, q) = balance_parts tx.value_balance b in
          sum_join_splits_exact tx.join_splits tx.value_balance (omega arith) (omega arith))
