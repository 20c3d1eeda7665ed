-- ===== src/Header/Tests.antt =====
-- A small header, runs of the parser on it, and the theorems at it.
use lightwalletd.Common.{
  ℕ, ◌≤◌, List, [], ◌∷◌, ◌++◌, ◌≡◌, ◌↔◌, refl, replicate, All, IsByte, are_bytes→All, ok, err,
  Error, new, arith,
}
use lightwalletd.Common.Int.{pos}
use lightwalletd.Scan.{◌>>=◌, wrapping}
use lightwalletd.Bytestring.{
  read_compact_size, read_bytes, read_uint32, read_int32, read_compact_length_prefixed,
  max_compact_size,
}
use lightwalletd.Bytestring.Words.{le_bytes}
use lightwalletd.CompactSize.{compact_size}
use lightwalletd.CompactSize.RoundTrip.{read_compact_size_accepts}
use lightwalletd.Header.Defs.{RawBlockHeader, marshal_binary, parse_from_slice}
use lightwalletd.Header.RoundTrip.{
  IsWellFormed, header_bytes, parse_from_slice_accepts, parse_from_slice_short,
}

abbrev pub small_header : RawBlockHeader
small_header = record {
  version = pos 4;
  hash_prev_block = replicate 32 1;
  hash_merkle_root = replicate 32 2;
  hash_final_sapling_root = replicate 32 3;
  time = 1600000000;
  n_bits_bytes = replicate 4 5;
  nonce = replicate 32 6;
  solution = 7 ∷ 8 ∷ 9 ∷ [];
}

pub small_header-IsWellFormed : IsWellFormed small_header
small_header-IsWellFormed = record {
  version = omega arith;
  prev = refl;
  merkle = refl;
  root = refl;
  time = omega arith;
  bits = refl;
  nonce = refl;
  solution = omega arith;
}

abbrev small_input : List ℕ
small_input = header_bytes small_header ++ 10 ∷ []

small_input-AreBytes : All IsByte small_input
small_input-AreBytes = are_bytes→All small_input (unfold le_bytes compact_size in refl)

-- The parser, run.
small_header_parses : parse_from_slice small_input ≡ (ok small_header, 10 ∷ [])
unfolding parse_from_slice read_int32 read_bytes read_uint32 read_compact_length_prefixed le_bytes
    compact_size ◌>>=◌ wrapping
small_header_parses = refl

short_header_fails :
    parse_from_slice (1 ∷ 2 ∷ []) ≡ (err (new "could not read header version"), 1 ∷ 2 ∷ [])
unfolding parse_from_slice read_int32 read_bytes read_uint32 read_compact_length_prefixed ◌>>=◌
    wrapping
short_header_fails = refl

compact_size_not_canonical : (read_compact_size (253 ∷ 252 ∷ 0 ∷ [])).0 ≡ err tt
unfolding read_compact_size ◌>>=◌
compact_size_not_canonical = refl

read_compact_size_accepts_example :
    (read_compact_size (253 ∷ 0 ∷ 1 ∷ 7 ∷ []) ≡ (ok 256, 7 ∷ []))
    ↔ ((256 ≤ max_compact_size) × (253 ∷ 0 ∷ 1 ∷ 7 ∷ [] ≡ compact_size 256 ++ 7 ∷ []))
read_compact_size_accepts_example =
    read_compact_size_accepts (253 ∷ 0 ∷ 1 ∷ 7 ∷ []) 256 (7 ∷ []) (omega arith)

parse_from_slice_accepts_example :
    (parse_from_slice small_input ≡ (ok small_header, 10 ∷ []))
    ↔ (IsWellFormed small_header × (small_input ≡ marshal_binary small_header ++ 10 ∷ []))
parse_from_slice_accepts_example =
    parse_from_slice_accepts small_input small_header (10 ∷ []) small_input-AreBytes

parse_from_slice_short_example : (e : Error) × (parse_from_slice (1 ∷ 2 ∷ []) ≡ (err e, 1 ∷ 2 ∷ []))
parse_from_slice_short_example = parse_from_slice_short (1 ∷ 2 ∷ []) (omega arith) (omega arith)
