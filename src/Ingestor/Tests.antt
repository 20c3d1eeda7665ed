-- ===== src/Ingestor/Tests.antt =====
-- A node with two blocks, runs of the ingestor, and the theorems at it.
use mathlib.Core.Option.{some-injective}
use mathlib.Core.Path.{subst}
use lightwalletd.Common.{
  ℕ, zero, suc, ◌∷◌, [], List, ◌++◌, ◌≡◌, refl, Option, some, none, ok, err, replicate, arith, ◌==◌,
  if◌then◌else◌, ◌+◌, ◌≤◌, length, get_or, get_elem?, Bool-cases, inl, inr, ◌∙◌, false,
}
use lightwalletd.Common.Text.{codes}
use lightwalletd.Bytestring.Words.{le_bytes}
use lightwalletd.Bytestring.{
  read_int32, read_bytes, read_compact_length_prefixed, read_uint64, read_int64,
}
use lightwalletd.CompactSize.{compact_size}
use lightwalletd.Scan.{◌>>=◌, wrapping, repeat}
use lightwalletd.Header.{marshal_binary, parse_from_slice}
use lightwalletd.Header.Tests.{small_header}
use lightwalletd.Transaction.{RawTransaction, parse_tx_in, parse_tx_out, parse_spend, parse_output}
use lightwalletd.Transaction.Format.{transaction_bytes}
use lightwalletd.Transaction.Tests.{coinbase_raw}
use lightwalletd.Block.{CompactBlock}
use lightwalletd.BlockCache.{BlockCache, same_bytes}
use lightwalletd.BlockCache.Frames.{Entry, blocks_bytes, lengths_bytes, offsets}
use lightwalletd.BlockCache.Refine.{Holds}
use lightwalletd.Fee.{encode_to_string}
use lightwalletd.Fetch.{BlockReply, requesting_block, unexpected_height, get_block_from_rpc}
use lightwalletd.Ingestor.Kept.{IsSound, IsStorable}
use lightwalletd.Ingestor.Sound.{IsServed, block_ingestor-IsSound}
use lightwalletd.Ingestor.Steady.{IsSteady}
use lightwalletd.Ingestor.Caught.{IsForkedAt, rounds_catch_up}
use lightwalletd.Ingestor.Defs.{Ingestor, started, rounds, block_ingestor}

-- Every hash is made of 32 bytes 1, which is what the small header has in front of it.
abbrev ones : List ℕ → List ℕ
ones bs = replicate 32 1

-- The height is 123392 and the byte more.
abbrev coinbase_at : ℕ → RawTransaction
coinbase_at low = record coinbase_raw {
  transparent_inputs =
      record {
        prev_tx_hash = replicate 32 0;
        prev_tx_out_index = 0xffffffff;
        script_sig = 3 ∷ low ∷ 0xe2 ∷ 0x01 ∷ 0x51 ∷ [];
        sequence_number = 0xffffffff;
      }
      ∷ [];
}

abbrev block_at : ℕ → List ℕ
block_at low = marshal_binary small_header ++ 1 ∷ transaction_bytes (coinbase_at low)

abbrev node : ℕ → BlockReply
node n =
    if n == 123456
    then ok (some (encode_to_string (block_at 0x40)))
    else if n == 123457
    then ok (some (encode_to_string (block_at 0x41)))
    else err (codes "-8: Block height out of range")

abbrev compact : ℕ → ℕ → CompactBlock
compact height h = record {
  height = height;
  hash = replicate 32 h;
  prev_hash = replicate 32 1;
  time = 1600000000;
  vtx = [];
}

-- The node's first block, asked for at any height.
serves_first :
    (h : ℕ)
    → get_block_from_rpc ones h (node 123456)
      ≡ (if 123456 == h then ok (ok (some (compact 123456 1))) else ok (err unexpected_height))
unfolding get_block_from_rpc marshal_binary le_bytes compact_size ◌>>=◌ wrapping parse_from_slice
    read_int32 read_bytes read_compact_length_prefixed repeat parse_tx_in parse_tx_out read_uint64
    read_int64 parse_spend parse_output
serves_first h = refl

serves_second : get_block_from_rpc ones 123457 (node 123457) ≡ ok (ok (some (compact 123457 1)))
unfolding get_block_from_rpc marshal_binary le_bytes compact_size ◌>>=◌ wrapping parse_from_slice
    read_int32 read_bytes read_compact_length_prefixed repeat parse_tx_in parse_tx_out read_uint64
    read_int64 parse_spend parse_output
serves_second = refl

abbrev marshal : CompactBlock → Option (List ℕ)
marshal b = some (b.height ∷ get_or b.hash 0 0 ∷ replicate 78 0)

abbrev unmarshal : List ℕ → Option CompactBlock
unmarshal d = some (compact (get_or d 0 0) (get_or d 1 0))

abbrev entry : ℕ → ℕ → Entry
entry height h = (compact height h, height ∷ h ∷ replicate 78 0)

abbrev chain : List Entry
chain = entry 123456 1 ∷ entry 123457 1 ∷ []

-- A block of another branch.
abbrev other : List Entry
other = entry 123456 8 ∷ []

abbrev other_cache : BlockCache
other_cache = record {
  lengths_file = lengths_bytes other;
  blocks_file = blocks_bytes 123456 other;
  starts = offsets 0 other;
  first_block = 123456;
  next_block = 123457;
  latest_hash = some (replicate 32 8);
}

other_cache-Holds : Holds unmarshal other_cache other
other_cache-Holds = record {
  stored = record {
    lengths = refl;
    blocks = refl;
    starts = refl;
    next = refl;
    entries = (refl, refl, refl, omega arith, omega arith, tt);
  };
  latest = refl;
}

node-marshals : (i : ℕ) (e : Entry) → get_elem? chain i ≡ some e → marshal e.0 ≡ some e.1
node-marshals zero e h = subst (λ x. marshal x.0 ≡ some x.1) (some-injective _ e h) refl
node-marshals (suc zero) e h = subst (λ x. marshal x.0 ≡ some x.1) (some-injective _ e h) refl
node-marshals (suc (suc i)) e h = absurd (ground arith)

node-serves :
    (i : ℕ) (e : Entry)
    → get_elem? chain i ≡ some e
    → get_block_from_rpc ones (123456 + i) (node (123456 + i)) ≡ ok (ok (some e.0))
node-serves zero e h =
    subst (λ x. get_block_from_rpc ones 123456 (node 123456) ≡ ok (ok (some x.0)))
      (some-injective _ e h) (serves_first 123456)
node-serves (suc zero) e h =
    subst (λ x. get_block_from_rpc ones 123457 (node 123457) ≡ ok (ok (some x.0)))
      (some-injective _ e h) serves_second
node-serves (suc (suc i)) e h = absurd (ground arith)

node-IsSteady : IsSteady marshal unmarshal ones node 123456 chain
node-IsSteady = record {
  entries = (
    refl,
    refl,
    refl,
    omega arith,
    omega arith,
    (refl, refl, refl, omega arith, omega arith, tt),
  );
  linked = (tt, (refl, tt));
  marshalled = node-marshals;
  served = node-serves;
}

other-IsForked : IsForkedAt chain 0 other
other-IsForked zero x f k at_x at_f =
    subst (λ y. same_bytes y.0.hash f.0.prev_hash ≡ false) (some-injective _ x at_x)
      (subst (λ g. same_bytes (replicate 32 8) g.0.prev_hash ≡ false) (some-injective _ f at_f)
        refl)
other-IsForked (suc i) x f k at_x at_f = absurd (ground arith)

-- One round takes the other branch back, and two add the node's blocks.
rounds_catch_up_example :
    (s' : Ingestor) × (rounds marshal unmarshal 1 ones node 3 (started other_cache) ≡ ok s')
    × Holds unmarshal s'.cache chain
rounds_catch_up_example =
    rounds_catch_up marshal unmarshal ones 0 node 123456 chain 0 (started other_cache) other
      node-IsSteady other_cache-Holds refl (omega arith) refl (omega arith) other-IsForked
      (omega arith)

abbrev seen : List (Option BlockReply)
seen = some (err (codes "timeout")) ∷ some (node 123456) ∷ none ∷ []

first-IsStorable : IsStorable marshal unmarshal (compact 123456 1)
first-IsStorable = record {
  hash = refl;
  back = λ d e. subst (λ x. unmarshal x ≡ some (compact 123456 1)) (some-injective _ d e) refl;
  long = λ d e. subst (λ x. 74 ≤ length x) (some-injective _ d e) (omega arith);
  short = λ d e. subst (λ x. length x ≤ 4000000) (some-injective _ d e) (omega arith);
}

IsServed-timeout : IsServed marshal unmarshal 0 ones (err (codes "timeout"))
IsServed-timeout h = (
  err (requesting_block (codes "timeout")),
  unfold get_block_from_rpc in refl,
  λ b e. absurd (ground arith),
)

IsServed-first : IsServed marshal unmarshal 0 ones (node 123456)
IsServed-first h = elim (Bool-cases (123456 == h)) [
  | inl here ↦ (
    ok (some (compact 123456 1)),
    serves_first h ∙ rw here refl,
    λ b e.
        let same : compact 123456 1 ≡ b = cc in
        subst (IsStorable marshal unmarshal) same first-IsStorable,
  )
  | inr there ↦
      (err unexpected_height, serves_first h ∙ rw there refl, λ b e. absurd (ground arith))
]

block_ingestor-IsSound_example :
    IsSound marshal unmarshal 123456
      (block_ingestor marshal unmarshal 1 ones (started other_cache) seen)
block_ingestor-IsSound_example =
    block_ingestor-IsSound marshal unmarshal 0 ones 123456 (started other_cache) other seen
      (record {
        holds = other_cache-Holds;
        linked = (tt, tt);
        from = refl;
        retries = omega arith;
        reorgs = omega arith;
      })
      (
        (λ reply e.
            subst (IsServed marshal unmarshal 0 ones) (some-injective _ reply e) IsServed-timeout),
        (
          (λ reply e.
              subst (IsServed marshal unmarshal 0 ones) (some-injective _ reply e) IsServed-first),
          ((λ reply e. absurd (ground arith)), tt),
        ),
      )
