-- ===== src/Fee/Defs.antt =====
-- parser/fee.go: what a transaction's fee is computed from. Text is a list of character codes.
use lightwalletd.Common.{
  ℕ, ◌+◌, ◌/◌, ◌%◌, ◌^◌, List, [], ◌∷◌, ◌||◌, Option, none, some, ltb, if◌then◌else◌,
}
use lightwalletd.Common.Int.{ℤ, pos, negsuc, ◌+ℤ◌, ◌-ℤ◌, ltb_ℤ, to_int64, to_uint64}
use lightwalletd.Reverse.{reverse_bytes}
use lightwalletd.Transaction.{TxIn, TxOut, JoinSplit, Transaction}

abbrev pub max_money : ℕ
max_money = 2100000000000000

abbrev pub minus_max_money : ℤ
minus_max_money = negsuc 2099999999999999

-- Arithmetic on `int64` wraps.
abbrev pub wrap64 : ℤ → ℤ
wrap64 i = to_int64 (to_uint64 i)

-- `hex.EncodeToString`: two digits a byte, from `0123456789abcdef`.
abbrev pub hex_digit : ℕ → ℕ
hex_digit d = if ltb d 10 then 48 + d else 87 + d

abbrev pub encode_to_string : List ℕ → List ℕ
encode_to_string [] = []
encode_to_string (b ∷ bs) = hex_digit (b / 16) ∷ hex_digit (b % 16) ∷ encode_to_string bs

pub record Prevout : Type 0 where
  pub tx_id : List ℕ
  pub index : ℕ

unfoldable pub prevouts_of : List TxIn → List Prevout
unfolding reverse_bytes
prevouts_of [] = []
prevouts_of (i ∷ is) =
    record { tx_id = encode_to_string (reverse_bytes i.prev_tx_hash); index = i.prev_tx_out_index }
    ∷ prevouts_of is

-- The loop over the outputs, with `valueOut` so far.
unfoldable pub sum_outputs : List TxOut → ℕ → Option ℕ
sum_outputs [] value_out = some value_out
sum_outputs (out ∷ outs) value_out =
    let rest = sum_outputs outs ((value_out + out.value) % 2 ^ 64) in
    if ltb max_money out.value then none else rest

-- The loop over the JoinSplits, with `shieldedIn` so far.
unfoldable pub sum_join_splits : List JoinSplit → ℤ → Option ℤ
sum_join_splits [] shielded_in = some shielded_in
sum_join_splits (js ∷ jss) shielded_in =
    let moved = wrap64 (to_int64 js.vpub_new -ℤ to_int64 js.vpub_old) in
    let rest = sum_join_splits jss (wrap64 (shielded_in +ℤ moved)) in
    if ltb max_money js.vpub_new || ltb max_money js.vpub_old then none else rest

pub record Parts : Type 0 where
  pub prevouts : List Prevout
  pub value_out : ℕ
  pub shielded_in : ℤ

abbrev pub shielded_parts : List Prevout → ℕ → Option ℤ → Option Parts
shielded_parts prevouts value_out none = none
shielded_parts prevouts value_out (some shielded_in) =
    some (record { prevouts = prevouts; value_out = value_out; shielded_in = shielded_in })

abbrev pub parts_from : Transaction → Option ℕ → Option Parts
parts_from tx none = none
parts_from tx (some value_out) =
    let shielded_in = sum_join_splits tx.join_splits tx.value_balance in
    if ltb_ℤ (pos max_money) tx.value_balance || ltb_ℤ tx.value_balance minus_max_money
    then none
    else shielded_parts (prevouts_of tx.transparent_inputs) value_out shielded_in

-- `none` is the result (nil, 0, 0, false).
unfoldable pub fee_parts : Transaction → Option Parts
unfolding prevouts_of sum_outputs sum_join_splits
fee_parts tx = parts_from tx (sum_outputs tx.transparent_outputs 0)
