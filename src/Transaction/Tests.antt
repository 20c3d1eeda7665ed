-- ===== src/Transaction/Tests.antt =====
-- A coinbase transaction and a Sapling transaction, and the theorems at them.
use lightwalletd.Common.{
  [], ◌∷◌, ◌++◌, ◌≡◌, ◌↔◌, refl, replicate, All, IsByte, are_bytes→All, ok, none, true, false,
}
use lightwalletd.Common.Int.{pos, negsuc}
use lightwalletd.Scan.{◌>>=◌, wrapping, repeat}
use lightwalletd.Bytestring.{
  read_bytes, read_uint32, read_uint64, read_int64, read_compact_length_prefixed,
}
use lightwalletd.Bytestring.Words.{le_bytes}
use lightwalletd.CompactSize.{compact_size}
use lightwalletd.Transaction.Defs.{parse_tx_in, parse_tx_out, parse_spend, parse_output}
use lightwalletd.Transaction.Whole.{RawTransaction, Transaction, parse_transaction}
use lightwalletd.Transaction.Format.{transaction_bytes}
use lightwalletd.Transaction.Parse.{IsParsed, parse_transaction_accepts}

-- Height 123456 is pushed by three bytes.
abbrev pub coinbase_raw : RawTransaction
coinbase_raw = record {
  f_overwintered = false;
  version = 1;
  n_version_group_id = 0;
  transparent_inputs =
      record {
        prev_tx_hash = replicate 32 0;
        prev_tx_out_index = 0xffffffff;
        script_sig = 3 ∷ 0x40 ∷ 0xe2 ∷ 0x01 ∷ 0x51 ∷ [];
        sequence_number = 0xffffffff;
      }
      ∷ [];
  transparent_outputs = record { value = 5000; script = 0x51 ∷ [] } ∷ [];
  n_lock_time = 0;
  n_expiry_height = 0;
  value_balance = pos 0;
  shielded_spends = [];
  shielded_outputs = [];
  join_splits = [];
  join_split_pub_key = [];
  join_split_sig = [];
  binding_sig = [];
}

abbrev pub coinbase : Transaction
coinbase = record {
  raw = coinbase_raw;
  raw_bytes = transaction_bytes coinbase_raw;
  cached_tx_id = none;
}

-- A Sapling transaction with a spend and an output.
abbrev pub sapling_raw : RawTransaction
sapling_raw = record coinbase_raw {
  f_overwintered = true;
  version = 4;
  n_version_group_id = 0x892f2085;
  n_expiry_height = 200;
  value_balance = negsuc 6;
  shielded_spends =
      record {
        cv = replicate 32 1;
        anchor = replicate 32 2;
        nullifier = replicate 32 3;
        rk = replicate 32 4;
        zkproof = replicate 192 5;
        spend_auth_sig = replicate 64 6;
      }
      ∷ [];
  shielded_outputs =
      record {
        cv = replicate 32 1;
        cmu = replicate 32 2;
        ephemeral_key = replicate 32 3;
        enc_ciphertext = replicate 580 4;
        out_ciphertext = replicate 80 5;
        zkproof = replicate 192 6;
      }
      ∷ [];
  binding_sig = replicate 64 7;
}

abbrev pub sapling : Transaction
sapling = record {
  raw = sapling_raw;
  raw_bytes = transaction_bytes sapling_raw;
  cached_tx_id = none;
}

pub transaction_bytes-AreBytes : All IsByte (transaction_bytes sapling_raw ++ 8 ∷ [])
transaction_bytes-AreBytes = are_bytes→All _ (unfold le_bytes compact_size in refl)

-- The parser, run on both.
coinbase_parses :
    parse_transaction (transaction_bytes coinbase_raw ++ 8 ∷ []) ≡ (ok coinbase, 8 ∷ [])
unfolding parse_transaction parse_tx_in parse_tx_out read_uint32 read_uint64 read_bytes
    read_compact_length_prefixed le_bytes compact_size ◌>>=◌ wrapping repeat
coinbase_parses = refl

pub sapling_parses :
    parse_transaction (transaction_bytes sapling_raw ++ 8 ∷ []) ≡ (ok sapling, 8 ∷ [])
unfolding parse_transaction parse_tx_in parse_tx_out parse_spend parse_output read_uint32
    read_uint64 read_int64 read_bytes read_compact_length_prefixed le_bytes compact_size ◌>>=◌
    wrapping repeat
sapling_parses = refl

parse_transaction_accepts_example :
    (parse_transaction (transaction_bytes sapling_raw ++ 8 ∷ []) ≡ (ok sapling, 8 ∷ []))
    ↔ (IsParsed sapling × (transaction_bytes sapling_raw ++ 8 ∷ [] ≡ sapling.raw_bytes ++ 8 ∷ []))
parse_transaction_accepts_example =
    parse_transaction_accepts (transaction_bytes sapling_raw ++ 8 ∷ []) sapling (8 ∷ [])
      transaction_bytes-AreBytes
