-- ===== src/Transaction/Parts.antt =====
-- The parts of a transaction: which values each parser returns, and from which bytes.
use lightwalletd.Common.{ℕ, ◌≤◌, ◌<◌, ◌^◌, List, ◌++◌, ◌≡◌, append-nil, length, arith}
use lightwalletd.Scan.Codec.{Codec, Codec-iff, >>=-Codec, pure-Codec, wrapping-Codec}
use lightwalletd.Bytestring.{max_compact_size}
use lightwalletd.Bytestring.Words.{le_bytes}
use lightwalletd.Bytestring.Bytes.{read_bytes-Codec, read_uint32-Codec, read_uint64-Codec}
use lightwalletd.CompactSize.RoundTrip.{prefixed, read_compact_length_prefixed-Codec}
use lightwalletd.Transaction.Defs.{
  TxIn, TxOut, Spend, Output, parse_tx_in, parse_tx_out, parse_spend, parse_output,
}

pub record IsSizedTxIn (x : TxIn) : Type 0 where
  pub prev_tx_hash : length x.prev_tx_hash ≡ 32
  pub prev_tx_out_index : x.prev_tx_out_index < 2 ^ 32
  pub script_sig : length x.script_sig ≤ max_compact_size
  pub sequence_number : x.sequence_number < 2 ^ 32

abbrev pub tx_in_bytes : TxIn → List ℕ
tx_in_bytes x =
    x.prev_tx_hash
    ++ (le_bytes 4 x.prev_tx_out_index ++ (prefixed x.script_sig ++ (le_bytes 4 x.sequence_number)))

abbrev TxInFields : TxIn → Type 0
TxInFields x =
    Unit {0}
    × ((length x.prev_tx_hash ≡ 32)
        × ((x.prev_tx_out_index < 2 ^ 32)
            × ((length x.script_sig ≤ max_compact_size)
                × ((x.sequence_number < 2 ^ 32) × (Unit {0})))))

pub tx_in-Codec : Codec parse_tx_in IsSizedTxIn tx_in_bytes
unfolding parse_tx_in
tx_in-Codec =
    Codec-iff
      (>>=-Codec (λ x. x.prev_tx_hash) (λ _. Unit {0}) (wrapping-Codec _ (read_bytes-Codec 32))
        λ a.
          >>=-Codec (λ x. x.prev_tx_out_index) _ (wrapping-Codec _ read_uint32-Codec)
            λ b.
              >>=-Codec (λ x. x.script_sig) _ (wrapping-Codec _ read_compact_length_prefixed-Codec)
                λ c.
                  >>=-Codec (λ x. x.sequence_number) _ (wrapping-Codec _ read_uint32-Codec)
                    λ d. pure-Codec _ (λ _. Unit {0}) _ (ground arith) (λ x k _. ground arith))
      (λ x w. (from w, simp append-nil)) (λ x v. (to v, simp append-nil))
  where
    from : {x : TxIn} → IsSizedTxIn x → TxInFields x
    from w = assumption

    to : {x : TxIn} → TxInFields x → IsSizedTxIn x
    to v = assumption

pub record IsSizedTxOut (x : TxOut) : Type 0 where
  pub value : x.value < 2 ^ 64
  pub script : length x.script ≤ max_compact_size

abbrev pub tx_out_bytes : TxOut → List ℕ
tx_out_bytes x = le_bytes 8 x.value ++ (prefixed x.script)

abbrev TxOutFields : TxOut → Type 0
TxOutFields x =
    Unit {0} × ((x.value < 2 ^ 64) × ((length x.script ≤ max_compact_size) × (Unit {0})))

pub tx_out-Codec : Codec parse_tx_out IsSizedTxOut tx_out_bytes
unfolding parse_tx_out
tx_out-Codec =
    Codec-iff
      (>>=-Codec (λ x. x.value) (λ _. Unit {0}) (wrapping-Codec _ read_uint64-Codec)
        λ a.
          >>=-Codec (λ x. x.script) _ (wrapping-Codec _ read_compact_length_prefixed-Codec)
            λ b. pure-Codec _ (λ _. Unit {0}) _ (ground arith) (λ x k _. ground arith))
      (λ x w. (from w, simp append-nil)) (λ x v. (to v, simp append-nil))
  where
    from : {x : TxOut} → IsSizedTxOut x → TxOutFields x
    from w = assumption

    to : {x : TxOut} → TxOutFields x → IsSizedTxOut x
    to v = assumption

pub record IsSizedSpend (x : Spend) : Type 0 where
  pub cv : length x.cv ≡ 32
  pub anchor : length x.anchor ≡ 32
  pub nullifier : length x.nullifier ≡ 32
  pub rk : length x.rk ≡ 32
  pub zkproof : length x.zkproof ≡ 192
  pub spend_auth_sig : length x.spend_auth_sig ≡ 64

abbrev pub spend_bytes : Spend → List ℕ
spend_bytes x = x.cv ++ (x.anchor ++ (x.nullifier ++ (x.rk ++ (x.zkproof ++ (x.spend_auth_sig)))))

abbrev SpendFields : Spend → Type 0
SpendFields x =
    Unit {0}
    × ((length x.cv ≡ 32)
        × ((length x.anchor ≡ 32)
            × ((length x.nullifier ≡ 32)
                × ((length x.rk ≡ 32)
                    × ((length x.zkproof ≡ 192) × ((length x.spend_auth_sig ≡ 64) × (Unit {0})))))))

pub spend-Codec : Codec parse_spend IsSizedSpend spend_bytes
unfolding parse_spend
spend-Codec =
    Codec-iff
      (>>=-Codec (λ x. x.cv) (λ _. Unit {0}) (wrapping-Codec _ (read_bytes-Codec 32))
        λ a.
          >>=-Codec (λ x. x.anchor) _ (wrapping-Codec _ (read_bytes-Codec 32))
            λ b.
              >>=-Codec (λ x. x.nullifier) _ (wrapping-Codec _ (read_bytes-Codec 32))
                λ c.
                  >>=-Codec (λ x. x.rk) _ (wrapping-Codec _ (read_bytes-Codec 32))
                    λ d.
                      >>=-Codec (λ x. x.zkproof) _ (wrapping-Codec _ (read_bytes-Codec 192))
                        λ e.
                          >>=-Codec (λ x. x.spend_auth_sig) _
                            (wrapping-Codec _ (read_bytes-Codec 64))
                            λ f.
                              pure-Codec _ (λ _. Unit {0}) _ (ground arith) (λ x k _. ground arith))
      (λ x w. (from w, simp append-nil)) (λ x v. (to v, simp append-nil))
  where
    from : {x : Spend} → IsSizedSpend x → SpendFields x
    from w = assumption

    to : {x : Spend} → SpendFields x → IsSizedSpend x
    to v = assumption

pub record IsSizedOutput (x : Output) : Type 0 where
  pub cv : length x.cv ≡ 32
  pub cmu : length x.cmu ≡ 32
  pub ephemeral_key : length x.ephemeral_key ≡ 32
  pub enc_ciphertext : length x.enc_ciphertext ≡ 580
  pub out_ciphertext : length x.out_ciphertext ≡ 80
  pub zkproof : length x.zkproof ≡ 192

abbrev pub output_bytes : Output → List ℕ
output_bytes x =
    x.cv ++ (x.cmu ++ (x.ephemeral_key ++ (x.enc_ciphertext ++ (x.out_ciphertext ++ (x.zkproof)))))

abbrev OutputFields : Output → Type 0
OutputFields x =
    Unit {0}
    × ((length x.cv ≡ 32)
        × ((length x.cmu ≡ 32)
            × ((length x.ephemeral_key ≡ 32)
                × ((length x.enc_ciphertext ≡ 580)
                    × ((length x.out_ciphertext ≡ 80) × ((length x.zkproof ≡ 192) × (Unit {0})))))))

pub output-Codec : Codec parse_output IsSizedOutput output_bytes
unfolding parse_output
output-Codec =
    Codec-iff
      (>>=-Codec (λ x. x.cv) (λ _. Unit {0}) (wrapping-Codec _ (read_bytes-Codec 32))
        λ a.
          >>=-Codec (λ x. x.cmu) _ (wrapping-Codec _ (read_bytes-Codec 32))
            λ b.
              >>=-Codec (λ x. x.ephemeral_key) _ (wrapping-Codec _ (read_bytes-Codec 32))
                λ c.
                  >>=-Codec (λ x. x.enc_ciphertext) _ (wrapping-Codec _ (read_bytes-Codec 580))
                    λ d.
                      >>=-Codec (λ x. x.out_ciphertext) _ (wrapping-Codec _ (read_bytes-Codec 80))
                        λ e.
                          >>=-Codec (λ x. x.zkproof) _ (wrapping-Codec _ (read_bytes-Codec 192))
                            λ f.
                              pure-Codec _ (λ _. Unit {0}) _ (ground arith) (λ x k _. ground arith))
      (λ x w. (from w, simp append-nil)) (λ x v. (to v, simp append-nil))
  where
    from : {x : Output} → IsSizedOutput x → OutputFields x
    from w = assumption

    to : {x : Output} → OutputFields x → IsSizedOutput x
    to v = assumption
