-- ===== src/Transaction/Whole.antt =====
-- parser/transaction.go: the transaction, its parser and its methods.
use lightwalletd.Common.{
  ℕ, ◌+◌, ◌-◌, ◌/◌, ◌%◌, ◌^◌, List, [], Bool, ◌&&◌, Option, none, some, Error, wrap, String, ltb,
  leb, ◌==◌, if◌then◌else◌, take, length, map, Result, ok, err,
}
use lightwalletd.Common.Int.{ℤ, pos}
use lightwalletd.Scan.{Scan, pure, ◌>>=◌, wrapping, check, repeat}
use lightwalletd.Bytestring.{read_bytes, read_uint32, read_int64, read_compact_size}
use lightwalletd.Reverse.{reverse_bytes}
use lightwalletd.Transaction.Defs.{
  TxIn, TxOut, Spend, Output, JoinSplit, parse_tx_in, parse_tx_out, parse_spend, parse_output,
  parse_join_split,
}

pub record RawTransaction : Type 0 where
  pub f_overwintered : Bool
  pub version : ℕ
  pub n_version_group_id : ℕ
  pub transparent_inputs : List TxIn
  pub transparent_outputs : List TxOut
  pub n_lock_time : ℕ
  pub n_expiry_height : ℕ
  pub value_balance : ℤ
  pub shielded_spends : List Spend
  pub shielded_outputs : List Output
  pub join_splits : List JoinSplit
  pub join_split_pub_key : List ℕ
  pub join_split_sig : List ℕ
  pub binding_sig : List ℕ

pub record Transaction : Type 0 where
  pub raw : RawTransaction
  pub open raw use *
  pub raw_bytes : List ℕ
  pub cached_tx_id : Option (List ℕ)

-- `header >> 31 == 1` and `header & 0x7FFFFFFF`
unfoldable pub read_header : Scan Error (Bool × ℕ)
read_header = do
  header ← check "could not read header" read_uint32
  pure (header / 2 ^ 31 == 1, header % 2 ^ 31)

-- A count, and as many parts: `if count > 0 { xs = make([]*T, count); for … }`.
unfoldable pub read_many : {A : Type 0} → String → String → Scan Error A → Scan Error (ℕ × List A)
read_many count_message part_message part = do
  count ← check count_message read_compact_size
  parts ← repeat count (wrapping (λ e. wrap e part_message) part)
  pure (count, parts)

-- What the block under `if tx.version >= 4` sets, the counts included.
pub record SaplingPart : Type 0 where
  pub value_balance : ℤ
  pub spends : ℕ × List Spend
  pub outputs : ℕ × List Output

unfoldable pub read_sapling : ℕ → Scan Error SaplingPart
unfolding read_many
read_sapling version =
    if leb 4 version
    then (do
      value_balance ← check "could not read valueBalance" read_int64
      spends ← read_many "could not read nShieldedSpend" "while parsing shielded Spend" parse_spend
      outputs ←
          read_many "could not read nShieldedOutput" "while parsing shielded Output" parse_output
      pure (record { value_balance = value_balance; spends = spends; outputs = outputs }))
    else pure (record { value_balance = pos 0; spends = (0, []); outputs = (0, []) })

-- What the block under `if tx.version >= 2` sets.
pub record SproutPart : Type 0 where
  pub join_splits : ℕ × List JoinSplit
  pub pub_key : List ℕ
  pub sig : List ℕ

unfoldable pub read_sprout : ℕ → Scan Error SproutPart
unfolding read_many
read_sprout version =
    if leb 2 version
    then (do
      join_splits ←
          read_many "could not read nJoinSplit" "while parsing JoinSplit" (parse_join_split version)
      pub_key ←
          if ltb 0 join_splits.0
          then check "could not read joinSplitPubKey" (read_bytes 32)
          else pure []
      sig ←
          if ltb 0 join_splits.0
          then check "could not read joinSplitSig" (read_bytes 64)
          else pure []
      pure (record { join_splits = join_splits; pub_key = pub_key; sig = sig }))
    else pure (record { join_splits = (0, []); pub_key = []; sig = [] })

-- The body of `ParseFromSlice`, on a transaction that `NewTransaction` made.
unfoldable pub parse_raw : Scan Error RawTransaction
unfolding read_header read_many read_sapling read_sprout
parse_raw = do
  header ← read_header
  n_version_group_id ←
      if leb 3 header.1 then check "could not read nVersionGroupId" read_uint32 else pure 0
  inputs ← read_many "could not read tx_in_count" "while parsing transparent input" parse_tx_in
  outputs ← read_many "could not read tx_out_count" "while parsing transparent output" parse_tx_out
  n_lock_time ← check "could not read nLockTime" read_uint32
  n_expiry_height ← if header.0 then check "could not read nExpiryHeight" read_uint32 else pure 0
  sapling ← read_sapling header.1
  sprout ← read_sprout header.1
  binding_sig ←
      if leb 4 header.1 && ltb 0 (sapling.spends.0 + sapling.outputs.0)
      then check "could not read bindingSig" (read_bytes 64)
      else pure []
  pure (record {
    f_overwintered = header.0;
    version = header.1;
    n_version_group_id = n_version_group_id;
    transparent_inputs = inputs.1;
    transparent_outputs = outputs.1;
    n_lock_time = n_lock_time;
    n_expiry_height = n_expiry_height;
    value_balance = sapling.value_balance;
    shielded_spends = sapling.spends.1;
    shielded_outputs = sapling.outputs.1;
    join_splits = sprout.join_splits.1;
    join_split_pub_key = sprout.pub_key;
    join_split_sig = sprout.sig;
    binding_sig = binding_sig;
  })

-- `txLen := len(data) - len(s); tx.rawBytes = data[:txLen]`; beside an error the slice is nil.
abbrev pub with_raw_bytes :
    List ℕ → Result Error RawTransaction × List ℕ → Result Error Transaction × List ℕ
with_raw_bytes input (ok raw, s) = (
  ok (record { raw = raw; raw_bytes = take (length input - length s) input; cached_tx_id = none }),
  s,
)
with_raw_bytes input (err e, s) = (err e, [])

unfoldable pub parse_transaction : Scan Error Transaction
unfolding parse_raw
parse_transaction input = with_raw_bytes input (parse_raw input)

-- The fields of the compact forms that the code sets (walletrpc/compact_formats.proto).
pub record CompactOutput : Type 0 where
  pub cmu : List ℕ
  pub epk : List ℕ
  pub ciphertext : List ℕ

pub record CompactTx : Type 0 where
  pub index : ℕ
  pub hash : List ℕ
  pub spends : List (List ℕ)
  pub outputs : List CompactOutput

-- A `CompactSpend` has the nullifier alone.
unfoldable pub spend_to_compact : Spend → List ℕ
spend_to_compact p = p.nullifier

-- `p.encCiphertext[:52]`
unfoldable pub output_to_compact : Output → CompactOutput
output_to_compact p = record {
  cmu = p.cmu;
  epk = p.ephemeral_key;
  ciphertext = take 52 p.enc_ciphertext;
}

unfoldable pub has_sapling_elements : Transaction → Bool
has_sapling_elements tx =
    leb 4 tx.version && ltb 0 (length tx.shielded_spends + length tx.shielded_outputs)

module _ (sha256 : List ℕ → List ℕ) where
  unfoldable pub tx_encodable_hash : Transaction → List ℕ
  tx_encodable_hash tx = sha256 (sha256 tx.raw_bytes)

  -- The hash, and the transaction with its cache filled.
  unfoldable pub tx_display_hash : Transaction → List ℕ × Transaction
  unfolding reverse_bytes
  tx_display_hash tx = elim tx.cached_tx_id [
    | some h ↦ (h, tx)
    | none ↦
        let h = reverse_bytes (sha256 (sha256 tx.raw_bytes)) in
        (h, record tx { cached_tx_id = some h })
  ]

  unfoldable pub tx_to_compact : Transaction → ℕ → CompactTx
  unfolding tx_encodable_hash spend_to_compact output_to_compact
  tx_to_compact tx index = record {
    index = index;
    hash = tx_encodable_hash tx;
    spends = map spend_to_compact tx.shielded_spends;
    outputs = map output_to_compact tx.shielded_outputs;
  }
