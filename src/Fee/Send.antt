-- ===== src/Fee/Send.antt =====
-- frontend/sendfee.go: the fee of a transaction that the node refused, and the verdict on it. Error
-- texts are lists of character codes. What the node answers is a parameter: the decoded reply to
-- yed_getinfo, and the `value` of the reply to gettxout for an output, as text.
use lightwalletd.Common.{
  ℕ, ◌^◌, List, [], ◌∷◌, Bool, true, false, ◌&&◌, ◌||◌, Option, none, some, ltb, leb, ◌==◌,
  if◌then◌else◌, length, Result, ok, err, Error,
}
use lightwalletd.Common.Int.{ℤ, pos, ◌+ℤ◌, ◌-ℤ◌, ltb_ℤ, to_int64}
use lightwalletd.Common.Text.{codes}
use lightwalletd.Transaction.{Transaction, parse_transaction}
use lightwalletd.Fee.Defs.{Prevout, Parts, fee_parts, wrap64}
use lightwalletd.Fee.Decimal.{is_digit, parse_int, zat_from_decimal}

abbrev pub max_fee_inputs : ℕ
max_fee_inputs = 250

abbrev pub known_rpc_version : ℤ
known_rpc_version = pos 8

-- The fields of yed_getinfo's reply that are read.
pub record YedInfo : Type 0 where
  pub rpc_version : ℤ
  pub max_tx_fee_ceiling_zat : ℤ
  pub max_tx_fee_zat : ℤ

-- `none` is false: the call or the decoding failed, or the reply names no cap.
abbrev pub ceiling_in : YedInfo → Option ℤ
ceiling_in info =
    if ltb_ℤ info.rpc_version known_rpc_version
    then none
    else if ltb_ℤ (pos 0) info.max_tx_fee_zat
    then some info.max_tx_fee_zat
    else if ltb_ℤ (pos 0) info.max_tx_fee_ceiling_zat
    then some info.max_tx_fee_ceiling_zat
    else none

unfoldable pub yellowback_fee_ceiling : Option YedInfo → Option ℤ
yellowback_fee_ceiling none = none
yellowback_fee_ceiling (some info) = ceiling_in info

-- The text behind a prefix, if it stands at the front.
abbrev pub strip : List ℕ → List ℕ → Option (List ℕ)
strip [] s = some s
strip (p ∷ ps) [] = none
strip (p ∷ ps) (c ∷ s) = let rest = strip ps s in if p == c then rest else none

abbrev pub is_some : {A : Type 0} → Option A → Bool
is_some none = false
is_some (some a) = true

abbrev pub is_hex : ℕ → Bool
is_hex c = is_digit c || leb 65 c && leb c 70 || leb 97 c && leb c 102

-- The longest run at the front, and what stands behind it.
abbrev pub run : (ℕ → Bool) → List ℕ → List ℕ × List ℕ
run test [] = ([], [])
run test (c ∷ s) =
    let (taken, rest) = run test s in if test c then (c ∷ taken, rest) else ([], c ∷ s)

-- `absurdly[ -]high[ -]fee`, anywhere in the text.
abbrev pub dash_or_space : List ℕ → Option (List ℕ)
dash_or_space [] = none
dash_or_space (c ∷ s) = if c == 32 || c == 45 then some s else none

abbrev pub then_strip : (List ℕ → Option (List ℕ)) → Option (List ℕ) → Option (List ℕ)
then_strip f none = none
then_strip f (some s) = f s

abbrev pub absurd_here : List ℕ → Option (List ℕ)
absurd_here s = then_strip (strip (codes "fee")) (
    then_strip dash_or_space
      (then_strip (strip (codes "high")) (then_strip dash_or_space (strip (codes "absurdly") s))))

unfoldable pub is_absurd_fee : List ℕ → Bool
is_absurd_fee [] = false
is_absurd_fee (c ∷ s) = let rest = is_absurd_fee s in is_some (absurd_here (c ∷ s)) || rest

-- `absurdly high fees [0-9a-fA-F]+, ([0-9]+) > [0-9]+` from here on: the text of the group.
abbrev pub some_run : (ℕ → Bool) → List ℕ → Option (List ℕ × List ℕ)
some_run test s = let r = run test s in if length r.0 == 0 then none else some r

abbrev pub with_limit : Option (List ℕ × List ℕ) → Option (List ℕ)
with_limit none = none
with_limit (some (group, s)) =
    if is_some (
      then_strip (λ t. elim (some_run is_digit t) [ none ↦ none | some r ↦ some r.1 ])
        (strip (codes " > ") s))
    then some group
    else none

abbrev pub group_behind : Option (List ℕ × List ℕ) → Option (List ℕ)
group_behind none = none
group_behind (some (id, s)) = elim (strip (codes ", ") s) [
  | none ↦ none
  | some t ↦ with_limit (some_run is_digit t)
]

abbrev pub amount_here : List ℕ → Option (List ℕ)
amount_here s =
    then_strip (λ t. group_behind (some_run is_hex t)) (strip (codes "absurdly high fees ") s)

unfoldable pub absurd_fee_amount : List ℕ → Option (List ℕ)
absurd_fee_amount [] = none
absurd_fee_amount (c ∷ s) =
    let rest = absurd_fee_amount s in elim (amount_here (c ∷ s)) [ none ↦ rest | some m ↦ some m ]

-- What replaces the node's message, with the fee and the cap that it names.
pub data Refusal : Type 0 where
  none_given : Refusal
  fee_exceeds_cap : ℤ → ℤ → Refusal

unfoldable pub verdict : ℤ → ℤ → Bool × Refusal
verdict fee ceiling =
    if ltb_ℤ fee (pos 0)
    then (false, none_given)
    else if ltb_ℤ ceiling fee
    then (false, fee_exceeds_cap fee ceiling)
    else (true, none_given)

abbrev pub judged : Option ℤ → ℤ → Bool × Refusal
judged none ceiling = (false, none_given)
judged (some fee) ceiling = verdict fee ceiling

module _ (gettxout : Prevout → Option (List ℕ)) where
  -- The values of the outputs, added to `in`; `none` if the node does not answer one.
  abbrev pub value_of : Prevout → Option ℤ
  value_of p = elim (gettxout p) [ none ↦ none | some text ↦ zat_from_decimal text ]

  unfoldable pub add_prevouts : List Prevout → ℤ → Option ℤ
  unfolding zat_from_decimal
  add_prevouts [] in_ = some in_
  add_prevouts (p ∷ ps) in_ = elim (value_of p) [
    | none ↦ none
    | some v ↦ add_prevouts ps (wrap64 (in_ +ℤ v))
  ]

  abbrev pub net : ℕ → Option ℤ → Option ℤ
  net value_out none = none
  net value_out (some in_) =
      if ltb (2 ^ 62) value_out then none else some (wrap64 (in_ -ℤ to_int64 value_out))

  abbrev pub fee_of_parts : Option Parts → Option ℤ
  fee_of_parts none = none
  fee_of_parts (some parts) =
      if ltb max_fee_inputs (length parts.prevouts)
      then none
      else net parts.value_out (add_prevouts parts.prevouts parts.shielded_in)

  abbrev pub fee_of_parsed : Result Error Transaction × List ℕ → Option ℤ
  fee_of_parsed (err e, rest) = none
  fee_of_parsed (ok tx, []) = fee_of_parts (fee_parts tx)
  fee_of_parsed (ok tx, b ∷ rest) = none

  unfoldable pub compute_fee : List ℕ → Option ℤ
  unfolding parse_transaction fee_parts add_prevouts
  compute_fee data' = fee_of_parsed (parse_transaction data')

  -- The fee that the message states, else the one that is computed.
  unfoldable pub established_fee : List ℕ → List ℕ → Option ℤ
  unfolding absurd_fee_amount compute_fee
  established_fee data' message = elim (absurd_fee_amount message) [
    | some m ↦ parse_int m
    | none ↦ compute_fee data'
  ]

  abbrev pub under_ceiling : List ℕ → List ℕ → Option ℤ → Bool × Refusal
  under_ceiling data' message none = (false, none_given)
  under_ceiling data' message (some ceiling) = judged (established_fee data' message) ceiling

  -- `none` is a nil error.
  unfoldable pub high_fee_verdict : Option YedInfo → List ℕ → Option (List ℕ) → Bool × Refusal
  unfolding is_absurd_fee yellowback_fee_ceiling established_fee verdict
  high_fee_verdict info data' none = (false, none_given)
  high_fee_verdict info data' (some message) =
      if is_absurd_fee message
      then under_ceiling data' message (yellowback_fee_ceiling info)
      else (false, none_given)
