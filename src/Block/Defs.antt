-- ===== src/Block/Defs.antt =====
-- parser/block.go: the block, its parser, its height and its compact form.
use lightwalletd.Common.{
  ℕ, zero, suc, ◌+◌, ◌-◌, ◌^◌, List, [], ◌∷◌, Bool, true, false, Option, none, some, Error, new,
  wrap, wrap_at, ltb, ◌==◌, if◌then◌else◌, length, Result, ok, err,
}
use lightwalletd.Common.Int.{ℤ, pos, negsuc, to_uint64}
use lightwalletd.Scan.{Scan, pure, ◌>>=◌, wrapping, check}
use lightwalletd.Bytestring.{read_compact_size, read_script_int64}
use lightwalletd.Header.{
  RawBlockHeader, BlockHeader, get_encodable_hash, get_display_hash, get_display_prev_hash,
}
use lightwalletd.Header
use lightwalletd.Transaction.{
  TxIn, Transaction, parse_transaction, has_sapling_elements, CompactTx, tx_to_compact,
}

-- `hdr` is nil before `ParseFromSlice`. `height` is -1 until `GetHeight` has found it.
pub record Block : Type 0 where
  pub hdr : Option BlockHeader
  pub vtx : List Transaction
  pub height : ℤ

abbrev pub new_block : Block
new_block = record { hdr = none; vtx = []; height = negsuc 0 }

unfoldable pub get_tx_count : Block → ℕ
get_tx_count b = length b.vtx

unfoldable pub has_sapling_in : List Transaction → Bool
unfolding has_sapling_elements
has_sapling_in [] = false
has_sapling_in (tx ∷ txs) =
    let rest = has_sapling_in txs in if has_sapling_elements tx then true else rest

unfoldable pub has_sapling_transactions : Block → Bool
unfolding has_sapling_in
has_sapling_transactions b = has_sapling_in b.vtx

-- One round of the loop over the transactions: with no data left the loop ends early, and the test
-- behind it is an error.
unfoldable pub parse_next : ℕ → Scan Error Transaction
unfolding parse_transaction
parse_next i [] = (err (new "parsing block transactions: not enough data"), [])
parse_next i (b ∷ data') =
    wrapping (λ e. wrap_at e "parsing transaction" i) parse_transaction (b ∷ data')

-- `for i = 0; i < txCount && len(data) > 0; i++`, with the rounds that are left and `i`.
unfoldable pub parse_vtx : ℕ → ℕ → Scan Error (List Transaction)
unfolding parse_next
parse_vtx zero i = pure []
parse_vtx (suc n) i = parse_next i >>= λ tx. parse_vtx n (i + 1) >>= λ txs. pure (tx ∷ txs)

unfoldable pub parse_parts : Scan Error (RawBlockHeader × List Transaction)
unfolding parse_vtx
parse_parts = do
  hdr ← wrapping (λ e. wrap e "parsing block header") Header.parse_from_slice
  tx_count ← check "could not read tx_count" read_compact_size
  vtx ← parse_vtx tx_count 0
  pure (hdr, vtx)

-- Success sets the header and the transactions of `b`; an error leaves `b` as it was, and the slice
-- returned beside it is nil.
abbrev pub with_parts :
    Block → Result Error (RawBlockHeader × List Transaction) × List ℕ → Result Error Block × List ℕ
with_parts b (ok p, s) =
    (ok (record b { hdr = some (record { raw = p.0; cached_hash = none }); vtx = p.1 }), s)
with_parts b (err e, s) = (err e, [])

unfoldable pub parse_block : Block → Scan Error Block
unfolding parse_parts
parse_block b input = with_parts b (parse_parts input)

abbrev pub genesis_target_difficulty : ℕ
genesis_target_difficulty = 520617983

unfoldable pub first_script : List TxIn → Option (List ℕ)
first_script [] = none
first_script (i ∷ is) = some i.script_sig

unfoldable pub script_in : List Transaction → Option (List ℕ)
unfolding first_script
script_in [] = none
script_in (tx ∷ txs) = first_script tx.transparent_inputs

-- `b.vtx[0].transparentInputs[0].ScriptSig`; `none` is the panic of an index out of range.
unfoldable pub coinbase_script : Block → Option (List ℕ)
unfolding script_in
coinbase_script b = script_in b.vtx

-- The height that the number at the front of the coinbase script stands for, or -1.
abbrev pub height_of : Result (Unit {0}) ℤ → ℤ
height_of (err e) = negsuc 0
height_of (ok (negsuc n)) = negsuc 0
height_of (ok (pos n)) =
    if ltb (2 ^ 32 - 1) n then negsuc 0 else if n == genesis_target_difficulty then pos 0 else pos n

-- The height, and the block with the height kept if there is one.
unfoldable pub found_height : Block → ℤ → ℤ × Block
found_height b (pos n) = (pos n, record b { height = pos n })
found_height b (negsuc n) = (negsuc 0, b)

-- A height that is known is returned; else it is looked for.
unfoldable pub height_from : Block → ℤ → Option (ℤ × Block)
unfolding coinbase_script found_height read_script_int64
height_from b (pos n) = some (pos n, b)
height_from b (negsuc (suc n)) = some (negsuc (suc n), b)
height_from b (negsuc zero) = elim (coinbase_script b) [
  | none ↦ none
  | some script ↦ some (found_height b (height_of (read_script_int64 script).0))
]

unfoldable pub get_height : Block → Option (ℤ × Block)
unfolding height_from
get_height b = height_from b b.height

-- The fields that `ToCompact` sets.
pub record CompactBlock : Type 0 where
  pub height : ℕ
  pub hash : List ℕ
  pub prev_hash : List ℕ
  pub time : ℕ
  pub vtx : List CompactTx

module _ (sha256 : List ℕ → List ℕ) where
  -- `for idx, tx := range b.vtx { if tx.HasSaplingElements() { … append … } }`
  unfoldable pub compact_vtx : ℕ → List Transaction → List CompactTx
  unfolding has_sapling_elements tx_to_compact
  compact_vtx idx [] = []
  compact_vtx idx (tx ∷ txs) =
      let rest = compact_vtx (idx + 1) txs in
      if has_sapling_elements tx then tx_to_compact sha256 tx idx ∷ rest else rest

  unfoldable pub compact_with : BlockHeader → ℤ × Block → CompactBlock × Block
  unfolding compact_vtx get_encodable_hash
  compact_with hdr (height, b) = (
    record {
      height = to_uint64 height;
      hash = get_encodable_hash sha256 hdr.raw;
      prev_hash = hdr.raw.hash_prev_block;
      time = hdr.raw.time;
      vtx = compact_vtx 0 b.vtx;
    },
    b,
  )

  -- `none` is a panic: there is no header, or no coinbase input to read the height from.
  unfoldable pub to_compact : Block → Option (CompactBlock × Block)
  unfolding get_height compact_with
  to_compact b = elim b.hdr [
    | none ↦ none
    | some hdr ↦ elim (get_height b) [ none ↦ none | some r ↦ some (compact_with hdr r) ]
  ]
