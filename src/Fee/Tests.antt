-- ===== src/Fee/Tests.antt =====
-- Fees of a small transaction, and the theorems at it.
use lightwalletd.Common.{
  ℕ, List, [], ◌∷◌, ◌≡◌, ◌↔◌, refl, true, some, Option, ok, Bool, ◌&&◌, All, arith,
}
use lightwalletd.Common.Int.{pos, ◌+ℤ◌, ◌-ℤ◌}
use lightwalletd.Common.Text.{codes}
use lightwalletd.Scan.{◌>>=◌, wrapping, repeat}
use lightwalletd.Bytestring.{read_uint32, read_uint64, read_bytes, read_compact_length_prefixed}
use lightwalletd.Bytestring.Words.{le_bytes}
use lightwalletd.CompactSize.{compact_size}
use lightwalletd.Transaction.{parse_transaction, parse_tx_in, parse_tx_out}
use lightwalletd.Transaction.Format.{transaction_bytes}
use lightwalletd.Transaction.Tests.{coinbase, coinbase_raw}
use lightwalletd.Fee.Defs.{Prevout, fee_parts, prevouts_of}
use lightwalletd.Fee.Decimal.{zat_from_decimal, is_digit}
use lightwalletd.Fee.Sums.{exact_parts, fee_parts_exact}
use lightwalletd.Fee.Exact.{IsDigit, zat_from_decimal_exact}
use lightwalletd.Fee.Send.{
  none_given, YedInfo, is_absurd_fee, absurd_fee_amount, yellowback_fee_ceiling, established_fee,
  verdict, compute_fee, high_fee_verdict,
}
use lightwalletd.Fee.Computed.{compute_fee_exact}
use lightwalletd.Fee.Ceiling.{high_fee_verdict_allows, IsAllowed}

fee_parts_exact_example : fee_parts coinbase ≡ exact_parts coinbase
fee_parts_exact_example = fee_parts_exact coinbase (omega arith) (omega arith)

abbrev all_digits : List ℕ → Bool
all_digits [] = true
all_digits (c ∷ cs) = is_digit c && all_digits cs

digits : (cs : List ℕ) → all_digits cs ≡ true → All IsDigit cs
digits [] h = tt
digits (c ∷ cs) h = (ground arith, digits cs (ground arith))

zat_from_decimal_exact_example : zat_from_decimal (codes "12.3456") ≡ some (pos 1234560000)
zat_from_decimal_exact_example =
    zat_from_decimal_exact (codes "12") (codes "3456") (digits (codes "12") refl)
      (digits (codes "3456") refl) (omega arith) (omega arith)

-- A node that values every output at 0.00007 YEC.
abbrev small_outputs : Prevout → Option (List ℕ)
small_outputs p = some (codes "0.00007")

small_value : zat_from_decimal (codes "0.00007") ≡ some (pos 7000)
unfolding zat_from_decimal ◌+ℤ◌
small_value = refl

coinbase_alone : parse_transaction (transaction_bytes coinbase_raw) ≡ (ok coinbase, [])
unfolding parse_transaction parse_tx_in parse_tx_out read_uint32 read_uint64 read_bytes
    read_compact_length_prefixed le_bytes compact_size ◌>>=◌ wrapping repeat
coinbase_alone = refl

compute_fee_exact_example :
    compute_fee small_outputs (transaction_bytes coinbase_raw)
    ≡ some (((pos 0 +ℤ (pos 0 -ℤ pos 0)) +ℤ pos 7000) -ℤ pos 5000)
compute_fee_exact_example =
    compute_fee_exact small_outputs (transaction_bytes coinbase_raw) coinbase (7000 ∷ [])
      coinbase_alone refl (omega arith) (omega arith) (omega arith)
      (unfold prevouts_of in (small_value, omega arith, tt))

abbrev info : Option YedInfo
info =
    some
      (record { rpc_version = pos 8; max_tx_fee_ceiling_zat = pos 9000; max_tx_fee_zat = pos 8000 })

abbrev stated : List ℕ
stated = codes "AcceptToMemoryPool: absurdly high fees 0aF, 7999 > 10"

stated_fee : absurd_fee_amount stated ≡ some (codes "7999")
unfolding absurd_fee_amount
stated_fee = refl

stated_is_allowed : (high_fee_verdict small_outputs info [] (some stated)) ≡ (true, none_given)
unfolding high_fee_verdict is_absurd_fee yellowback_fee_ceiling established_fee absurd_fee_amount
    verdict
stated_is_allowed = refl

high_fee_verdict_allows_example :
    ((high_fee_verdict small_outputs info [] (some stated)).0 ≡ true)
    ↔ IsAllowed small_outputs info [] (some stated)
high_fee_verdict_allows_example = high_fee_verdict_allows small_outputs info [] (some stated)
