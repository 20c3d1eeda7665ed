-- ===== src/Darkside/Defs.antt =====
-- common/darkside.go: the state of the mock node and its staging area. A block or a transaction is its
-- bytes; the start height is a natural number. What `http.Get` fetched is the list of the lines that
-- the scanner read, without an error. A byte array has one owner, but for the parser's slices of it.
use lightwalletd.Common.{
  ℕ, ◌+◌, ◌-◌, List, [], ◌∷◌, ◌++◌, Bool, true, false, not, Option, none, some, Error, Result, ok,
  err, ltb, if◌then◌else◌, length, take,
}
use lightwalletd.Common.Int.{ℤ, pos, negsuc, ltb_ℤ}
use lightwalletd.Common.Text.{codes}
use lightwalletd.Block.{Block, new_block, parse_block, get_height}
use lightwalletd.Transaction.{Transaction, parse_transaction}
use lightwalletd.BlockCache.{Halt, panic, same_bytes}
use lightwalletd.Fetch.{decode_string}

pub data DarksideError : Type 0 where
  reset_first : DarksideError
  parsing : Error → DarksideError
  too_long : DarksideError
  gap : ℤ → DarksideError
  too_low : ℤ → DarksideError
  too_high : DarksideError
  no_active_blocks : DarksideError
  not_found_line : DarksideError
  not_hex : DarksideError

pub record StagedTx : Type 0 where
  pub height : ℤ
  pub bytes : List ℕ

-- `getAddressUtxos` holds replies of the node, here with their address and the rest.
pub record Utxo : Type 0 where
  pub address : List ℕ
  pub rest : List ℕ

pub record Darkside : Type 0 where
  pub resetted : Bool
  pub start_height : ℕ
  pub branch_id : List ℕ
  pub chain_name : List ℕ
  pub latest_height : ℤ
  pub active_blocks : List (List ℕ)
  pub staged_blocks : List (List ℕ)
  pub incoming_transactions : List (List ℕ)
  pub staged_transactions : List StagedTx
  pub address_utxos : List Utxo
  pub ingestor_running : Bool

-- The error that is returned, if any, and the state.
abbrev pub Outcome : Type 0
Outcome = Result Halt (Option DarksideError × Darkside)

abbrev pub fails : DarksideError → Darkside → Outcome
fails e d = ok (some e, d)

abbrev pub succeeds : Darkside → Outcome
succeeds d = ok (none, d)

-- What follows if there was no error.
abbrev pub then_next : Outcome → (Darkside → Outcome) → Outcome
then_next (err h) next = err h
then_next (ok (some e, d)) next = ok (some e, d)
then_next (ok (none, d)) next = next d

-- `DarksideReset`, without the cache's own reset.
unfoldable pub darkside_reset : ℕ → List ℕ → List ℕ → Darkside → Darkside
darkside_reset sa bi cn d = record {
  resetted = true;
  start_height = sa;
  branch_id = bi;
  chain_name = cn;
  latest_height = negsuc 0;
  active_blocks = [];
  staged_blocks = [];
  incoming_transactions = [];
  staged_transactions = [];
  address_utxos = [];
  ingestor_running = false;
}

-- A block whose bytes are all read, and its height.
abbrev pub with_height : (Block → ℤ → Outcome) → Option (ℤ × Block) → Outcome
with_height next none = err panic
with_height next (some (h, b)) = next b h

abbrev pub read_whole : Darkside → Result Error Block × List ℕ → (Block → ℤ → Outcome) → Outcome
read_whole d (err e, rest) next = fails (parsing e) d
read_whole d (ok b, c ∷ rest) next = fails too_long d
read_whole d (ok b, []) next = with_height next (get_height b)

-- `addBlockActive`: what follows the block is dropped.
abbrev pub place_at : List ℕ → Darkside → ℤ → Outcome
place_at block_bytes d (negsuc n) = fails (too_low (negsuc n)) d
place_at block_bytes d (pos n) =
    if ltb (d.start_height + length d.active_blocks) n
    then fails (gap (pos n)) d
    else if ltb n d.start_height
    then fails (too_low (pos n)) d
    else succeeds
        (record d { active_blocks = take (n - d.start_height) d.active_blocks ++ block_bytes ∷ [] })

unfoldable pub add_block_active : List ℕ → Darkside → Outcome
unfolding parse_block get_height
add_block_active block_bytes d =
    read_whole d (parse_block new_block block_bytes) (λ b h. place_at block_bytes d h)

-- `darksideStageBlock`
unfoldable pub stage_block : List ℕ → Darkside → Outcome
unfolding parse_block get_height
stage_block b d = read_whole d (parse_block new_block b) λ block h.
    if ltb_ℤ h (pos d.start_height)
    then fails (too_low h) d
    else succeeds (record d { staged_blocks = d.staged_blocks ++ b ∷ [] })

abbrev pub staged_hex : Option (List ℕ) → Darkside → Outcome
staged_hex none d = fails not_hex d
staged_hex (some b) d = stage_block b d

-- `DarksideStageBlockStream`
unfoldable pub stage_block_stream : List ℕ → Darkside → Outcome
unfolding stage_block decode_string
stage_block_stream block_hex d =
    if not d.resetted then fails reset_first d else staged_hex (decode_string block_hex) d

-- The loop of `DarksideStageBlocks` over the lines.
unfoldable pub stage_lines : List (List ℕ) → Darkside → Outcome
unfolding stage_block decode_string
stage_lines [] d = succeeds d
stage_lines (line ∷ lines) d =
    let staged = then_next (staged_hex (decode_string line) d) (stage_lines lines) in
    if same_bytes line (codes "404: Not Found") then fails not_found_line d else staged

unfoldable pub stage_blocks : List (List ℕ) → Darkside → Outcome
unfolding stage_lines
stage_blocks lines d = if not d.resetted then fails reset_first d else stage_lines lines d

-- `DarksideStageTransaction`
abbrev pub staged_tx : ℤ → List ℕ → Darkside → Result Error Transaction × List ℕ → Outcome
staged_tx height tx_bytes d (err e, rest) = fails (parsing e) d
staged_tx height tx_bytes d (ok tx, c ∷ rest) = fails too_long d
staged_tx height tx_bytes d (ok tx, []) = succeeds (record d {
  staged_transactions =
      d.staged_transactions ++ (record { height = height; bytes = tx_bytes }) ∷ [];
})

unfoldable pub stage_transaction : ℤ → List ℕ → Darkside → Outcome
unfolding parse_transaction
stage_transaction height tx_bytes d =
    if not d.resetted
    then fails reset_first d
    else staged_tx height tx_bytes d (parse_transaction tx_bytes)

abbrev pub staged_tx_hex : ℤ → Option (List ℕ) → Darkside → Outcome
staged_tx_hex height none d = fails not_hex d
staged_tx_hex height (some b) d = stage_transaction height b d

-- `DarksideStageTransactionsURL` over the lines that were read.
unfoldable pub stage_tx_lines : ℤ → List (List ℕ) → Darkside → Outcome
unfolding stage_transaction decode_string
stage_tx_lines height [] d = succeeds d
stage_tx_lines height (line ∷ lines) d =
    let staged =
      then_next (staged_tx_hex height (decode_string line) d) (stage_tx_lines height lines) in
    if same_bytes line (codes "404: Not Found") then fails not_found_line d else staged

unfoldable pub stage_transactions : ℤ → List (List ℕ) → Darkside → Outcome
unfolding stage_tx_lines
stage_transactions height lines d =
    if not d.resetted then fails reset_first d else stage_tx_lines height lines d
