-- ===== src/Transaction/Parse.antt =====
-- `Transaction.ParseFromSlice`: what it returns, and the bytes that it keeps for the hash.
use mathlib.Core.Path.{subst}
use lightwalletd.Common.{
  ℕ, ◌-◌, List, [], ◌++◌, ◌≡◌, sym, ap, ◌∙◌, append-nil, length, length-append, take, take_front,
  All, IsByte, ◌↔◌, arith, Error, Result, ok, err, none,
}
use lightwalletd.Scan.Local.{Reads}
use lightwalletd.Scan.Codec.{Codec, Codec-accepts}
use lightwalletd.Transaction.Whole.{
  RawTransaction, Transaction, parse_raw, parse_transaction, with_raw_bytes,
}
use lightwalletd.Transaction.Format.{IsSizedTransaction, transaction_bytes}
use lightwalletd.Transaction.RoundTrip.{transaction-Codec}

-- The slice `data[:len(data) - len(rest)]` of what was read and the rest.
taken : (used rest : List ℕ) → take (length (used ++ rest) - length rest) (used ++ rest) ≡ used
taken used rest = rw (front_length used rest) (take_front used rest)
  where
    front_length : (xs ys : List ℕ) → length (xs ++ ys) - length ys ≡ length xs
    front_length xs ys = omega (arith, length-append xs ys)

with_raw_bytes_ok :
    (input : List ℕ) (r : Result Error RawTransaction) (s : List ℕ) (tx : Transaction)
    (rest : List ℕ)
    → with_raw_bytes input (r, s) ≡ (ok tx, rest)
    → (r ≡ ok tx.raw)
      × (s ≡ rest)
      × (tx.raw_bytes ≡ take (length input - length rest) input)
      × (tx.cached_tx_id ≡ none)
with_raw_bytes_ok input (ok raw) s tx rest e = ground arith
with_raw_bytes_ok input (err x) s tx rest e = absurd (cc (ap (λ p. p.0) e))

-- A transaction as `ParseFromSlice` leaves it.
pub record IsParsed (tx : Transaction) : Type 0 where
  pub sized : IsSizedTransaction tx.raw
  pub bytes : tx.raw_bytes ≡ transaction_bytes tx.raw
  pub uncached : tx.cached_tx_id ≡ none

abbrev built : RawTransaction → List ℕ → Transaction
built t used = record { raw = t; raw_bytes = used; cached_tx_id = none }

Reads-built :
    (t : RawTransaction) (used : List ℕ)
    → Reads parse_raw used t
    → Reads parse_transaction used (built t used)
unfolding parse_transaction
Reads-built t used h = record {
  on = λ more. ap (with_raw_bytes (used ++ more)) (h.on more) ∙ λ i.
      (ok (built t (taken used more i)), more);
}

parse_transaction_split :
    (input : List ℕ) (tx : Transaction) (rest : List ℕ)
    → parse_transaction input ≡ (ok tx, rest)
    → (used : List ℕ) × (input ≡ used ++ rest)
      × Reads parse_raw used tx.raw
      × (built tx.raw used ≡ tx)
parse_transaction_split input tx rest e =
    let (r, s, k, n) =
      with_raw_bytes_ok input (parse_raw input).0 (parse_raw input).1 tx rest
        (unfold parse_transaction in e) in
    let (used, p, x) = transaction-Codec.local.at input tx.raw rest (λ i. (r i, s i)) in
    let kept : tx.raw_bytes ≡ used =
      k ∙ (λ i. take (length (p i) - length rest) (p i)) ∙ taken used rest in
    (used, p, x, λ i. record { raw = tx.raw; raw_bytes = sym kept i; cached_tx_id = sym n i })

-- The parser accepts the wire format and nothing else, and keeps the bytes that it consumed.
pub parse_transaction-Codec : Codec parse_transaction IsParsed (λ tx. tx.raw_bytes)
parse_transaction-Codec = record {
  local = record {
    at = λ input tx rest e.
        let (used, p, x, b) = parse_transaction_split input tx rest e in
        (used, p, subst (Reads parse_transaction used) b (Reads-built tx.raw used x));
  };
  reads = λ tx w.
      subst (Reads parse_transaction tx.raw_bytes)
        (λ i. record { raw = tx.raw; raw_bytes = tx.raw_bytes; cached_tx_id = sym w.uncached i })
        (Reads-built tx.raw tx.raw_bytes (
          subst (λ l. Reads parse_raw l tx.raw) (sym w.bytes)
            (transaction-Codec.reads tx.raw w.sized)));
  only = λ used tx b h.
      let (used', p, x, e) = parse_transaction_split (used ++ []) tx [] (h.on []) in
      let whole : used ≡ used' = sym (append-nil used) ∙ p ∙ append-nil used' in
      let (u, w) = transaction-Codec.only used' tx.raw (subst (All IsByte) whole b) x in
      let kept : used' ≡ tx.raw_bytes = ap (λ t. t.raw_bytes) e in
      (
        whole ∙ kept,
        record { sized = w; bytes = sym kept ∙ u; uncached = ap (λ t. t.cached_tx_id) (sym e) },
      );
}

-- On a string of bytes the parser returns a transaction exactly if the string is the wire format
-- of its fields with the rest behind it, and these have the sizes of the format. The bytes that it
-- keeps, which are hashed, are those that it consumed, and no hash is cached.
pub parse_transaction_accepts :
    (input : List ℕ) (tx : Transaction) (rest : List ℕ)
    → All IsByte input
    → (parse_transaction input ≡ (ok tx, rest)) ↔ (IsParsed tx × (input ≡ tx.raw_bytes ++ rest))
parse_transaction_accepts = Codec-accepts parse_transaction-Codec
