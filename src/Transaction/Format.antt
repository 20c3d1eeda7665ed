-- ===== src/Transaction/Format.antt =====
-- The wire format of a transaction, and the sizes that it gives to the parts.
use lightwalletd.Common.{
  ℕ, ◌+◌, ◌≤◌, ◌<◌, ◌^◌, List, [], ◌++◌, ◌≡◌, length, Bool, ◌&&◌, ltb, leb, if◌then◌else◌, All,
}
use lightwalletd.Common.Int.{pos, IsInt64, to_uint64}
use lightwalletd.Scan.Codec.{concat_map}
use lightwalletd.Bytestring.{max_compact_size}
use lightwalletd.Bytestring.Words.{le_bytes}
use lightwalletd.CompactSize.{compact_size}
use lightwalletd.Transaction.Whole.{RawTransaction, SaplingPart, SproutPart}
use lightwalletd.Transaction.Parts.{
  IsSizedTxIn, IsSizedTxOut, IsSizedSpend, IsSizedOutput, tx_in_bytes, tx_out_bytes, spend_bytes,
  output_bytes,
}
use lightwalletd.Transaction.Sprout.{IsSizedJoinSplit, join_split_bytes}

abbrev pub header_word : Bool × ℕ → ℕ
header_word p = (if p.0 then 2 ^ 31 else 0) + p.1

-- A list of parts behind its count.
abbrev pub IsCounted : {A : Type 0} → (A → Type 0) → ℕ × List A → Type 0
IsCounted V p = (p.0 ≤ max_compact_size) × (length p.1 ≡ p.0) × All V p.1

abbrev pub counted_bytes : {A : Type 0} → (A → List ℕ) → ℕ × List A → List ℕ
counted_bytes e p = compact_size p.0 ++ concat_map e p.1

abbrev pub no_sapling : SaplingPart
no_sapling = record { value_balance = pos 0; spends = (0, []); outputs = (0, []) }

-- The Sapling fields, which versions from 4 on have.
abbrev pub IsSizedSapling : ℕ → SaplingPart → Type 0
IsSizedSapling version s =
    if leb 4 version
    then IsInt64 s.value_balance
      × IsCounted IsSizedSpend s.spends
      × IsCounted IsSizedOutput s.outputs
    else s ≡ no_sapling

abbrev pub sapling_bytes : ℕ → SaplingPart → List ℕ
sapling_bytes version s =
    if leb 4 version
    then le_bytes 8 (to_uint64 s.value_balance)
      ++ (counted_bytes spend_bytes s.spends ++ counted_bytes output_bytes s.outputs)
    else []

abbrev pub no_sprout : SproutPart
no_sprout = record { join_splits = (0, []); pub_key = []; sig = [] }

-- A byte string of `n` bytes that stands there under a condition only.
abbrev pub IsSizedIf : Bool → ℕ → List ℕ → Type 0
IsSizedIf present n bs = if present then length bs ≡ n else bs ≡ []

-- The JoinSplits, which versions from 2 on have; a key and a signature follow if there are any.
abbrev pub IsSizedSprout : ℕ → SproutPart → Type 0
IsSizedSprout version s =
    if leb 2 version
    then IsCounted (IsSizedJoinSplit version) s.join_splits
      × IsSizedIf (ltb 0 s.join_splits.0) 32 s.pub_key
      × IsSizedIf (ltb 0 s.join_splits.0) 64 s.sig
    else s ≡ no_sprout

abbrev pub bytes_if : Bool → List ℕ → List ℕ
bytes_if present bs = if present then bs else []

abbrev pub sprout_bytes : ℕ → SproutPart → List ℕ
sprout_bytes version s =
    if leb 2 version
    then counted_bytes (join_split_bytes version) s.join_splits
      ++ (bytes_if (ltb 0 s.join_splits.0) s.pub_key ++ bytes_if (ltb 0 s.join_splits.0) s.sig)
    else []

-- The parts of a transaction, as the parser reads them.
abbrev pub sapling_of : RawTransaction → SaplingPart
sapling_of t = record {
  value_balance = t.value_balance;
  spends = (length t.shielded_spends, t.shielded_spends);
  outputs = (length t.shielded_outputs, t.shielded_outputs);
}

abbrev pub sprout_of : RawTransaction → SproutPart
sprout_of t = record {
  join_splits = (length t.join_splits, t.join_splits);
  pub_key = t.join_split_pub_key;
  sig = t.join_split_sig;
}

abbrev pub has_binding : RawTransaction → Bool
has_binding t = leb 4 t.version && ltb 0 (length t.shielded_spends + length t.shielded_outputs)

-- A number below 2 ^ 32 that stands there under a condition only.
abbrev pub IsWordIf : Bool → ℕ → Type 0
IsWordIf present w = if present then w < 2 ^ 32 else w ≡ 0

-- A transaction whose parts have the sizes that the wire format gives them. A field that its
-- version does not have holds the zero value.
pub record IsSizedTransaction (t : RawTransaction) : Type 0 where
  pub version : t.version < 2 ^ 31
  pub version_group : IsWordIf (leb 3 t.version) t.n_version_group_id
  pub inputs : IsCounted IsSizedTxIn (length t.transparent_inputs, t.transparent_inputs)
  pub outputs : IsCounted IsSizedTxOut (length t.transparent_outputs, t.transparent_outputs)
  pub lock_time : t.n_lock_time < 2 ^ 32
  pub expiry_height : IsWordIf t.f_overwintered t.n_expiry_height
  pub sapling : IsSizedSapling t.version (sapling_of t)
  pub sprout : IsSizedSprout t.version (sprout_of t)
  pub binding : IsSizedIf (has_binding t) 64 t.binding_sig

-- The wire format of a transaction, versions 1 to 4 (section 7.1 of the Zcash protocol).
abbrev pub transaction_bytes : RawTransaction → List ℕ
transaction_bytes t =
    le_bytes 4 (header_word (t.f_overwintered, t.version))
    ++ (bytes_if (leb 3 t.version) (le_bytes 4 t.n_version_group_id)
        ++ (counted_bytes tx_in_bytes (length t.transparent_inputs, t.transparent_inputs)
            ++ (counted_bytes tx_out_bytes (length t.transparent_outputs, t.transparent_outputs)
                ++ (le_bytes 4 t.n_lock_time
                    ++ (bytes_if t.f_overwintered (le_bytes 4 t.n_expiry_height)
                        ++ (sapling_bytes t.version (sapling_of t)
                            ++ (sprout_bytes t.version (sprout_of t)
                                ++ bytes_if (has_binding t) t.binding_sig)))))))
