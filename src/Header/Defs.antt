-- ===== src/Header/Defs.antt =====
-- parser/block_header.go: the block header, its parser, its serialisation and its hashes. SHA-256
-- is the argument `sha256` of what uses it. A byte slice that is nil is the empty list.
use lightwalletd.Common.{ℕ, ◌+◌, List, [], Option, none, some, Result, ok, err, Error, length}
use lightwalletd.Common.Int.{ℤ, pos, to_uint32}
use lightwalletd.Scan.{Scan, pure, ◌>>=◌, check}
use lightwalletd.Bytestring.{read_bytes, read_uint32, read_int32, read_compact_length_prefixed}
use lightwalletd.Bytestring.Words.{le_bytes}
use lightwalletd.Buffer.{new_buffer, write, slice_backing}
use lightwalletd.CompactSize.{compact_length_prefixed_len, write_compact_length_prefixed}
use lightwalletd.Reverse.{reverse_bytes}

-- 140, the size of a serialized block header minus the Equihash solution
abbrev pub ser_block_header_minus_equihash_size : ℕ
ser_block_header_minus_equihash_size = 140

pub record RawBlockHeader : Type 0 where
  pub version : ℤ
  pub hash_prev_block : List ℕ
  pub hash_merkle_root : List ℕ
  pub hash_final_sapling_root : List ℕ
  pub time : ℕ
  pub n_bits_bytes : List ℕ
  pub nonce : List ℕ
  pub solution : List ℕ

-- `cachedHash` is nil until `GetDisplayHash` has run.
pub record BlockHeader : Type 0 where
  pub raw : RawBlockHeader
  pub cached_hash : Option (List ℕ)

abbrev pub new_block_header : BlockHeader
new_block_header = record {
  raw = record {
    version = pos 0;
    hash_prev_block = [];
    hash_merkle_root = [];
    hash_final_sapling_root = [];
    time = 0;
    n_bits_bytes = [];
    nonce = [];
    solution = [];
  };
  cached_hash = none;
}

unfoldable pub get_size : RawBlockHeader → ℕ
unfolding compact_length_prefixed_len
get_size hdr =
    ser_block_header_minus_equihash_size + compact_length_prefixed_len (length hdr.solution)

-- `binary.Write` of an int32 writes its bit pattern, lowest byte first, and of a slice its bytes.
unfoldable pub marshal_binary : RawBlockHeader → List ℕ
unfolding get_size new_buffer write slice_backing write_compact_length_prefixed
marshal_binary hdr =
    let header_size = get_size hdr in
    let buf = new_buffer header_size in
    let buf = write buf (le_bytes 4 (to_uint32 hdr.version)) in
    let buf = write buf hdr.hash_prev_block in
    let buf = write buf hdr.hash_merkle_root in
    let buf = write buf hdr.hash_final_sapling_root in
    let buf = write buf (le_bytes 4 hdr.time) in
    let buf = write buf hdr.n_bits_bytes in
    let buf = write buf hdr.nonce in
    let buf = write_compact_length_prefixed buf hdr.solution in slice_backing header_size buf

-- The body of `ParseFromSlice` over the local variable `s`.
unfoldable pub parse_header : Scan Error RawBlockHeader
parse_header = do
  version ← check "could not read header version" read_int32
  hash_prev_block ← check "could not read HashPrevBlock" (read_bytes 32)
  hash_merkle_root ← check "could not read HashMerkleRoot" (read_bytes 32)
  hash_final_sapling_root ← check "could not read HashFinalSaplingRoot" (read_bytes 32)
  time ← check "could not read timestamp" read_uint32
  n_bits_bytes ← check "could not read NBits bytes" (read_bytes 4)
  nonce ← check "could not read Nonce bytes" (read_bytes 32)
  solution ←
      check "could not read CompactSize-prefixed Equihash solution" read_compact_length_prefixed
  pure (record {
    version = version;
    hash_prev_block = hash_prev_block;
    hash_merkle_root = hash_merkle_root;
    hash_final_sapling_root = hash_final_sapling_root;
    time = time;
    n_bits_bytes = n_bits_bytes;
    nonce = nonce;
    solution = solution;
  })

-- The result and the slice that is returned beside it: on an error the input, unaltered.
abbrev pub returned :
    List ℕ → Result Error RawBlockHeader × List ℕ → Result Error RawBlockHeader × List ℕ
returned input (ok hdr, s) = (ok hdr, s)
returned input (err e, s) = (err e, input)

unfoldable pub parse_from_slice : List ℕ → Result Error RawBlockHeader × List ℕ
unfolding parse_header
parse_from_slice input = returned input (parse_header input)

module _ (sha256 : List ℕ → List ℕ) where
  unfoldable pub get_encodable_hash : RawBlockHeader → List ℕ
  unfolding marshal_binary
  get_encodable_hash hdr = sha256 (sha256 (marshal_binary hdr))

  -- The hash, and the header with its cache filled.
  unfoldable pub get_display_hash : BlockHeader → List ℕ × BlockHeader
  unfolding get_encodable_hash reverse_bytes
  get_display_hash hdr = elim hdr.cached_hash [
    | some h ↦ (h, hdr)
    | none ↦
        let h = reverse_bytes (get_encodable_hash hdr.raw) in
        (h, record hdr { cached_hash = some h })
  ]

unfoldable pub get_display_prev_hash : RawBlockHeader → List ℕ
unfolding reverse_bytes
get_display_prev_hash hdr = reverse_bytes hdr.hash_prev_block
