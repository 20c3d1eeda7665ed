-- ===== src/Darkside/Tests.antt =====
-- The mock node with one small block, and the theorems at it.
use lightwalletd.Common.{
  ℕ, List, [], ◌∷◌, ◌++◌, ◌≡◌, refl, arith, set, true, false, some, ok, replicate,
}
use lightwalletd.Common.Int.{pos, negsuc}
use lightwalletd.CompactSize.{compact_size}
use lightwalletd.Block.{CompactBlock}
use lightwalletd.Block.Tests.{small_block, twice, small_height}
use lightwalletd.Fetch.Tests.{bytes, bytes-AreBytes, bytes_read, settled}
use lightwalletd.Fetch.{get_block_from_rpc}
use lightwalletd.Darkside.Defs.{Darkside}
use lightwalletd.Darkside.Apply.{append_tx, apply_blocks}
use lightwalletd.Darkside.Requests.{darkside_getblock}
use lightwalletd.Darkside.Active.{IsActive, KeepsActive, apply_blocks-KeepsActive}
use lightwalletd.Darkside.Counted.{append_tx-compact_size}
use lightwalletd.Darkside.Served.{darkside_getblock-fetched}

abbrev fresh : Darkside
fresh = record {
  resetted = true;
  start_height = 123456;
  branch_id = [];
  chain_name = [];
  latest_height = negsuc 0;
  active_blocks = [];
  staged_blocks = [];
  incoming_transactions = [];
  staged_transactions = [];
  address_utxos = [];
  ingestor_running = false;
}

abbrev serving : Darkside
serving = record fresh { latest_height = pos 123456; active_blocks = bytes ∷ [] }

bytes-IsActive : IsActive 123456 bytes
bytes-IsActive = record {
  full = small_block;
  settled = settled;
  bytes = bytes-AreBytes;
  whole = bytes_read;
  height = small_height;
}

apply_blocks-KeepsActive_example : KeepsActive 123456 (bytes ∷ []) (apply_blocks (bytes ∷ []) fresh)
apply_blocks-KeepsActive_example =
    apply_blocks-KeepsActive (bytes ∷ []) fresh tt (bytes-AreBytes, tt)

darkside_getblock-fetched_example :
    (c : CompactBlock) × (get_block_from_rpc twice 123456 (darkside_getblock serving 123456)
      ≡ ok (ok (some c)))
darkside_getblock-fetched_example =
    darkside_getblock-fetched twice serving 0 bytes (bytes-IsActive, tt) refl refl

abbrev ones : List ℕ
ones = replicate 1487 1

append_tx-compact_size_example :
    append_tx (7 ∷ []) (ones ++ (compact_size 252 ++ 9 ∷ []))
    ≡ ok (set ones 68 2 ++ (compact_size 253 ++ 9 ∷ []) ++ 7 ∷ [])
append_tx-compact_size_example =
    append_tx-compact_size ones (9 ∷ []) (7 ∷ []) 252 1 refl (omega arith) refl
