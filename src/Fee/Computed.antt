-- ===== src/Fee/Computed.antt =====
-- frontend/sendfee.go: the fee that `computeFee` computes.
use lightwalletd.Common.{
  ℕ, suc, ◌+◌, ◌*◌, ◌^◌, ◌≤◌, ◌<◌, List, [], ◌∷◌, ◌≡◌, refl, ap, ◌∙◌, Bool, true, false, ◌&&◌,
  Option, some, ltb, leb, length, ok, arith, le→ltb,
}
use lightwalletd.Common.Int.{
  ℤ, pos, ◌+ℤ◌, ◌-ℤ◌, to_int64, pos_part, neg_part, +ℤ_parts, eq_of_parts,
}
use lightwalletd.Transaction.{TxIn, TxOut, JoinSplit, Transaction, parse_transaction}
use lightwalletd.Fee.Defs.{max_money, Prevout, prevouts_of}
use lightwalletd.Fee.Sums.{
  outputs_are_money, join_splits_are_money, balance_is_money, output_total, new_total, old_total,
  fee_parts_exact, wrap64-add, wrap64-sub, parts_add, pos_part-sub, balance_parts,
}
use lightwalletd.Fee.Send.{value_of, add_prevouts, net, compute_fee, max_fee_inputs}

abbrev pub sum : List ℕ → ℕ
sum [] = 0
sum (v ∷ vs) = v + sum vs

add_twice : (acc : ℤ) (v w : ℕ) → (acc +ℤ pos v) +ℤ pos w ≡ acc +ℤ pos (v + w)
add_twice acc v w = eq_of_parts _ _ (
    omega
      (arith, +ℤ_parts (acc +ℤ pos v) (pos w), +ℤ_parts acc (pos v), +ℤ_parts acc (pos (v + w))))

length-prevouts_of : (is : List TxIn) → length (prevouts_of is) ≡ length is
unfolding prevouts_of
length-prevouts_of [] = refl
length-prevouts_of (i ∷ is) = ap suc (length-prevouts_of is)

and_true : (a b : Bool) → (a && b) ≡ true → (a ≡ true) × (b ≡ true)
and_true a b h = ground arith

and_parts : (a b c : Bool) → (a && b && c) ≡ true → (a ≡ true) × (b ≡ true) × (c ≡ true)
and_parts a b c h = ground arith

both_money :
    (m n : ℕ) (b : Bool)
    → (leb m max_money && leb n max_money && b) ≡ true
    → (m ≤ max_money) × (n ≤ max_money) × (b ≡ true)
both_money m n b h = ground arith

output_total_le :
    (outs : List TxOut)
    → outputs_are_money outs ≡ true
    → output_total outs ≤ length outs * max_money
output_total_le [] h = omega arith
output_total_le (o ∷ os) h =
    let (a, b) = and_true (leb o.value max_money) (outputs_are_money os) h in
    let rest = output_total_le os b in ground arith

new_total_le :
    (jss : List JoinSplit)
    → join_splits_are_money jss ≡ true
    → (new_total jss ≤ length jss * max_money) × (old_total jss ≤ length jss * max_money)
new_total_le [] h = (omega arith, omega arith)
new_total_le (js ∷ jss) h =
    let (n, o, b) = both_money js.vpub_new js.vpub_old (join_splits_are_money jss) h in
    let (x, y) = new_total_le jss b in (omega arith, omega arith)

small_out : (out : ℕ) → out ≤ 2196 * max_money → ltb (2 ^ 62) out ≡ false
small_out out h = ground arith

small_to_int64 : (out : ℕ) → out ≤ 2196 * max_money → to_int64 out ≡ pos out
small_to_int64 out h = ground arith

abbrev pub shielded_total : Transaction → ℤ
shielded_total tx =
    tx.value_balance +ℤ (pos (new_total tx.join_splits) -ℤ pos (old_total tx.join_splits))

shielded_total_le :
    (tx : Transaction)
    → balance_is_money tx.value_balance ≡ true
    → join_splits_are_money tx.join_splits ≡ true
    → length tx.join_splits ≤ 1000
    → (pos_part (shielded_total tx) ≤ 1001 * max_money)
      × (neg_part (shielded_total tx) ≤ 1001 * max_money)
shielded_total_le tx mb mj j =
    let (b, b') = balance_parts tx.value_balance mb in
    let (n, n') = new_total_le tx.join_splits mj in
    let (d, d') = pos_part-sub (new_total tx.join_splits) (old_total tx.join_splits) in
    let (s, s') =
      parts_add tx.value_balance
        (pos (new_total tx.join_splits) -ℤ pos (old_total tx.join_splits)) in
    (omega arith, omega arith)

module _ (gettxout : Prevout → Option (List ℕ)) where
  -- The node answers the value of each output, in zatoshi at most MAX_MONEY, by its decimal text.
  abbrev pub Answers : List Prevout → List ℕ → Type 0
  Answers [] [] = Unit {0}
  Answers [] (v ∷ vs) = ⊥
  Answers (p ∷ ps) [] = ⊥
  Answers (p ∷ ps) (v ∷ vs) = (value_of gettxout p ≡ some (pos v)) × (v ≤ max_money) × Answers ps vs

  add_prevouts_exact :
      (ps : List Prevout) (vs : List ℕ) (acc : ℤ)
      → Answers ps vs
      → pos_part acc + length ps * max_money < 2 ^ 63
      → neg_part acc < 2 ^ 63
      → add_prevouts gettxout ps acc ≡ some (acc +ℤ pos (sum vs))
  unfolding add_prevouts
  add_prevouts_exact [] [] acc a h k =
      ap some (eq_of_parts _ _ (omega (arith, +ℤ_parts acc (pos 0))))
  add_prevouts_exact [] (v ∷ vs) acc a h k = elim a [ ]
  add_prevouts_exact (p ∷ ps) [] acc a h k = elim a [ ]
  add_prevouts_exact (p ∷ ps) (v ∷ vs) acc (e, m, a) h k =
      let (x, y) = parts_add acc (pos v) in
      let next = wrap64-add acc (pos v) (omega arith) (omega arith) in
      rw (add_prevouts, e, next)
        (add_prevouts_exact ps vs (acc +ℤ pos v) a (omega arith) (omega arith)
          ∙ ap some (add_twice acc v (sum vs)))

  sum_le : (ps : List Prevout) (vs : List ℕ) → Answers ps vs → sum vs ≤ length ps * max_money
  sum_le [] [] a = omega arith
  sum_le [] (v ∷ vs) a = elim a [ ]
  sum_le (p ∷ ps) [] a = elim a [ ]
  sum_le (p ∷ ps) (v ∷ vs) (e, m, a) = let rest = sum_le ps vs a in omega arith

  net_exact :
      (out : ℕ) (i : ℤ)
      → out ≤ 2196 * max_money
      → pos_part i < 2 ^ 63
      → neg_part i + out < 2 ^ 63
      → net gettxout out (some i) ≡ some (i -ℤ pos out)
  net_exact out i h k l =
      rw (small_out out h, small_to_int64 out h)
        (ap some (wrap64-sub i (pos out) (omega arith) (omega arith)))

  -- The fee that is computed is what the inputs and the shielded pools bring in, less what the outputs
  -- take: for data that parse to a transaction of at most 250 inputs, 2196 outputs and 1000 JoinSplits,
  -- with amounts of at most MAX_MONEY, whose inputs the node values at most MAX_MONEY each.
  pub compute_fee_exact :
      (data' : List ℕ) (tx : Transaction) (vs : List ℕ)
      → parse_transaction data' ≡ (ok tx, [])
      → (outputs_are_money tx.transparent_outputs
          && balance_is_money tx.value_balance
          && join_splits_are_money tx.join_splits)
        ≡ true
      → length tx.transparent_inputs ≤ max_fee_inputs
      → length tx.transparent_outputs ≤ 2196
      → length tx.join_splits ≤ 1000
      → Answers (prevouts_of tx.transparent_inputs) vs
      → compute_fee gettxout data'
        ≡ some ((shielded_total tx +ℤ pos (sum vs)) -ℤ pos (output_total tx.transparent_outputs))
  unfolding compute_fee
  compute_fee_exact data' tx vs e m i o j a =
      let (mo, mb, mj) =
        and_parts (outputs_are_money tx.transparent_outputs) (balance_is_money tx.value_balance)
          (join_splits_are_money tx.join_splits) m in
      let (s, s') = shielded_total_le tx mb mj j in
      let out = output_total_le tx.transparent_outputs mo in
      let total = sum_le (prevouts_of tx.transparent_inputs) vs a in
      let few = rw (← length-prevouts_of tx.transparent_inputs) at i in
      let (t, t') = parts_add (shielded_total tx) (pos (sum vs)) in
      rw
        (
          e,
          fee_parts_exact tx (omega arith) (omega arith),
          m,
          le→ltb _ _ few,
          add_prevouts_exact (prevouts_of tx.transparent_inputs) vs (shielded_total tx) a
              (omega arith) (omega arith),
        )
        (net_exact (output_total tx.transparent_outputs) _ (omega arith) (omega arith)
          (omega arith))
