-- ===== src/Transaction/Defs.antt =====
-- parser/transaction.go: the parts of a transaction and their parsers. Each parser is a scanner
-- over the local variable `s`; it fills an object that was made just before the call, so a field
-- that it does not reach is the zero value.
use lightwalletd.Common.{ℕ, List, [], ◌||◌, Error, new, String, leb, ◌==◌, if◌then◌else◌}
use lightwalletd.Scan.{Scan, pure, fail, ◌>>=◌, check}
use lightwalletd.Bytestring.{read_bytes, read_uint32, read_uint64, read_compact_length_prefixed}

pub record TxIn : Type 0 where
  pub prev_tx_hash : List ℕ
  pub prev_tx_out_index : ℕ
  pub script_sig : List ℕ
  pub sequence_number : ℕ

pub record TxOut : Type 0 where
  pub value : ℕ
  pub script : List ℕ

pub record Spend : Type 0 where
  pub cv : List ℕ
  pub anchor : List ℕ
  pub nullifier : List ℕ
  pub rk : List ℕ
  pub zkproof : List ℕ
  pub spend_auth_sig : List ℕ

pub record Output : Type 0 where
  pub cv : List ℕ
  pub cmu : List ℕ
  pub ephemeral_key : List ℕ
  pub enc_ciphertext : List ℕ
  pub out_ciphertext : List ℕ
  pub zkproof : List ℕ

-- An array of two is a pair. Of the two proofs the transaction's version selects one.
pub record JoinSplit : Type 0 where
  pub vpub_old : ℕ
  pub vpub_new : ℕ
  pub anchor : List ℕ
  pub nullifiers : List ℕ × List ℕ
  pub commitments : List ℕ × List ℕ
  pub ephemeral_key : List ℕ
  pub random_seed : List ℕ
  pub vmacs : List ℕ × List ℕ
  pub proof_phgr13 : List ℕ
  pub proof_groth16 : List ℕ
  pub enc_ciphertexts : List ℕ × List ℕ
  pub version : ℕ

unfoldable pub parse_tx_in : Scan Error TxIn
parse_tx_in = do
  prev_tx_hash ← check "could not read PrevTxHash" (read_bytes 32)
  prev_tx_out_index ← check "could not read PrevTxOutIndex" read_uint32
  script_sig ← check "could not read ScriptSig" read_compact_length_prefixed
  sequence_number ← check "could not read SequenceNumber" read_uint32
  pure (record {
    prev_tx_hash = prev_tx_hash;
    prev_tx_out_index = prev_tx_out_index;
    script_sig = script_sig;
    sequence_number = sequence_number;
  })

unfoldable pub parse_tx_out : Scan Error TxOut
parse_tx_out = do
  value ← check "could not read txOut value" read_uint64
  script ← check "could not read txOut script" read_compact_length_prefixed
  pure (record { value = value; script = script })

unfoldable pub parse_spend : Scan Error Spend
parse_spend = do
  cv ← check "could not read cv" (read_bytes 32)
  anchor ← check "could not read anchor" (read_bytes 32)
  nullifier ← check "could not read nullifier" (read_bytes 32)
  rk ← check "could not read rk" (read_bytes 32)
  zkproof ← check "could not read zkproof" (read_bytes 192)
  spend_auth_sig ← check "could not read spendAuthSig" (read_bytes 64)
  pure (record {
    cv = cv;
    anchor = anchor;
    nullifier = nullifier;
    rk = rk;
    zkproof = zkproof;
    spend_auth_sig = spend_auth_sig;
  })

unfoldable pub parse_output : Scan Error Output
parse_output = do
  cv ← check "could not read cv" (read_bytes 32)
  cmu ← check "could not read cmu" (read_bytes 32)
  ephemeral_key ← check "could not read ephemeralKey" (read_bytes 32)
  enc_ciphertext ← check "could not read encCiphertext" (read_bytes 580)
  out_ciphertext ← check "could not read outCiphertext" (read_bytes 80)
  zkproof ← check "could not read zkproof" (read_bytes 192)
  pure (record {
    cv = cv;
    cmu = cmu;
    ephemeral_key = ephemeral_key;
    enc_ciphertext = enc_ciphertext;
    out_ciphertext = out_ciphertext;
    zkproof = zkproof;
  })

-- `for i := 0; i < 2; i++ { if !s.ReadBytes(&p.xs[i], n) { return nil, errors.New(message) } }`
unfoldable pub read_pair : String → ℕ → Scan Error (List ℕ × List ℕ)
read_pair message n = do
  first ← check message (read_bytes n)
  second ← check message (read_bytes n)
  pure (first, second)

-- The branches on `p.version`: the PHGR13 proof and the Groth16 proof.
unfoldable pub read_proof : ℕ → Scan Error (List ℕ × List ℕ)
read_proof version =
    if version == 2 || version == 3
    then (do proof ← check "could not read PHGR13 proof" (read_bytes 296); pure (proof, []))
    else if leb 4 version
    then (do proof ← check "could not read Groth16 proof" (read_bytes 192); pure ([], proof))
    else fail (new "unexpected transaction version")

unfoldable pub parse_join_split : ℕ → Scan Error JoinSplit
parse_join_split version = do
  vpub_old ← check "could not read vpubOld" read_uint64
  vpub_new ← check "could not read vpubNew" read_uint64
  anchor ← check "could not read anchor" (read_bytes 32)
  nullifiers ← read_pair "could not read a nullifier" 32
  commitments ← read_pair "could not read a commitment" 32
  ephemeral_key ← check "could not read ephemeralKey" (read_bytes 32)
  random_seed ← check "could not read randomSeed" (read_bytes 32)
  vmacs ← read_pair "could not read a vmac" 32
  proof ← read_proof version
  enc_ciphertexts ← read_pair "could not read an encCiphertext" 601
  pure (record {
    vpub_old = vpub_old;
    vpub_new = vpub_new;
    anchor = anchor;
    nullifiers = nullifiers;
    commitments = commitments;
    ephemeral_key = ephemeral_key;
    random_seed = random_seed;
    vmacs = vmacs;
    proof_phgr13 = proof.0;
    proof_groth16 = proof.1;
    enc_ciphertexts = enc_ciphertexts;
    version = version;
  })
