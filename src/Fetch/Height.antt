-- ===== src/Fetch/Height.antt =====
-- `getBlockFromRPC`: the block that it returns is the one that was asked for.

use mathlib.Core.Option.{some-injective, none-ne-some}
use lightwalletd.Common.{
  ℕ, ◌*◌, ◌+◌, ◌/◌, ◌%◌, ◌^◌, ◌<◌, List, [], ◌∷◌, ◌≡◌, refl, ap, sym, ◌∙◌, arith, All, IsByte,
  Option, none, some, true, false, inl, inr, Bool-cases, Error, Result, ok, err, ==_iff, ◌==◌, Bool,
  if◌then◌else◌,
}
use lightwalletd.Header.{RawBlockHeader, BlockHeader, get_encodable_hash}
use lightwalletd.Transaction.{Transaction}
use lightwalletd.Common.Int.{ℤ, pos, negsuc}
use lightwalletd.Common.Text.{codes}
use lightwalletd.Block.{
  Block, new_block, parse_block, get_height, CompactBlock, to_compact, with_parts, compact_with,
  parse_parts,
}
use lightwalletd.Block.Height.{get_height_settles}
use lightwalletd.BlockCache.{Halt, same_bytes}
use lightwalletd.Fee.{hex_digit, encode_to_string}
use lightwalletd.Fetch.Defs.{
  hex_value, decode_string, before_colon, Fetched, BlockReply, compacted, at_height, parsed,
  decoded, get_block_from_rpc, requesting_block,
}

hex_value-hex_digit : (d : ℕ) → d < 16 → hex_value (hex_digit d) ≡ some d
hex_value-hex_digit d h = ground arith

halves : (b : ℕ) → (b / 16) * 16 + b % 16 ≡ b
halves b = omega arith

-- `DecodeString` gives back what `EncodeToString` was given.
pub decode_string-encode_to_string :
    (bs : List ℕ) → All IsByte bs → decode_string (encode_to_string bs) ≡ some bs
unfolding decode_string
decode_string-encode_to_string [] h = refl
decode_string-encode_to_string (b ∷ bs) h =
    rw
      (
        hex_value-hex_digit (b / 16) (omega arith),
        hex_value-hex_digit (b % 16) (omega arith),
        decode_string-encode_to_string bs h.1,
        halves b,
      )
      refl

pub small_height : (h : ℕ) → h < 2 ^ 32 → h % 2 ^ 64 ≡ h
small_height h k = omega arith

same_number : (h : ℕ) → (h == h) ≡ true
same_number h = ground arith

module _ (sha256 : List ℕ → List ℕ) where
  -- How a block comes from a reply: its bytes in hexadecimal, all of them read as one block, whose
  -- height is the one asked for, in its compact form.
  pub record IsFetched (asked : ℕ) (reply : BlockReply) (block : CompactBlock) : Type 0 where
    pub hex : List ℕ
    pub block_data : List ℕ
    pub full : Block
    pub settled : Block
    pub compact : Block
    pub replied : reply ≡ ok (some hex)
    pub read : decode_string hex ≡ some block_data
    pub whole : parse_block new_block block_data ≡ (ok full, [])
    pub height : get_height full ≡ some (pos asked, settled)
    pub form : to_compact sha256 settled ≡ some (block, compact)

  compacted-some :
      (o : Option (CompactBlock × Block)) (c : CompactBlock)
      → compacted sha256 o ≡ ok (ok (some c))
      → (b : Block) × (o ≡ some (c, b))
  compacted-some none c h = absurd (ground arith)
  compacted-some (some (d, b)) c h = (b, cc)

  at_height-some :
      (height : ℕ) (o : Option (ℤ × Block)) (c : CompactBlock)
      → at_height sha256 height o ≡ ok (ok (some c))
      → (b b' : Block) × (o ≡ some (pos height, b)) × (to_compact sha256 b ≡ some (c, b'))
  at_height-some height none c h = absurd (ground arith)
  at_height-some height (some (negsuc n, b)) c h = absurd (ground arith)
  at_height-some height (some (pos n, b)) c h = elim (Bool-cases (n == height)) [
    | inl same ↦
        let (b', e) = compacted-some (to_compact sha256 b) c (rw same at h) in
        (b, b', ap (λ m. some (pos m, b)) ((==_iff n height).0 same), e)
    | inr other ↦ absurd (let h' = rw other at h in ground arith)
  ]

  of_parsed :
      (height : ℕ) (hex data' : List ℕ) (r : Result Error Block × List ℕ) (c : CompactBlock)
      → decode_string hex ≡ some data'
      → parse_block new_block data' ≡ r
      → parsed sha256 height r ≡ ok (ok (some c))
      → IsFetched height (ok (some hex)) c
  of_parsed height hex data' (err e, rest) c d p h = absurd (ground arith)
  of_parsed height hex data' (ok b, x ∷ rest) c d p h = absurd (ground arith)
  of_parsed height hex data' (ok b, []) c d p h =
      let (b', b'', found, form) = at_height-some height (get_height b) c h in
      record {
        hex = hex;
        block_data = data';
        full = b;
        settled = b';
        compact = b'';
        replied = refl;
        read = d;
        whole = p;
        height = found;
        form = form;
      }

  of_decoded :
      (height : ℕ) (hex : List ℕ) (o : Option (List ℕ)) (c : CompactBlock)
      → decode_string hex ≡ o
      → decoded sha256 height o ≡ ok (ok (some c))
      → IsFetched height (ok (some hex)) c
  of_decoded height hex none c d h = absurd (ground arith)
  of_decoded height hex (some data') c d h =
      of_parsed height hex data' (parse_block new_block data') c d refl h

  got_nothing :
      (b : Bool) (e : List ℕ) (c : CompactBlock)
      → if◌then◌else◌ {A = Result Halt Fetched} b (ok (ok none)) (ok (err (requesting_block e)))
        ≡ ok (ok (some c))
      → ⊥
  got_nothing true e c h = ground arith
  got_nothing false e c h = ground arith

  pub get_block_from_rpc-IsFetched :
      (height : ℕ) (reply : BlockReply) (c : CompactBlock)
      → get_block_from_rpc sha256 height reply ≡ ok (ok (some c))
      → IsFetched height reply c
  unfolding get_block_from_rpc
  get_block_from_rpc-IsFetched height (err e) c h =
      absurd (got_nothing (same_bytes (before_colon e) (codes "-8")) e c h)
  get_block_from_rpc-IsFetched height (ok none) c h = absurd (ground arith)
  get_block_from_rpc-IsFetched height (ok (some hex)) c h =
      of_decoded height hex (decode_string hex) c refl h

  pub unknown_height :
      (r : Result Error (RawBlockHeader × List Transaction) × List ℕ) (b : Block) (rest : List ℕ)
      → with_parts new_block r ≡ (ok b, rest)
      → b.height ≡ negsuc 0
  unknown_height (err e, s) b rest h = absurd (ground arith)
  unknown_height (ok p, s) b rest h = cc

  compact_of :
      (o : Option BlockHeader) (b : Block) (n : ℕ) (c : CompactBlock) (b' : Block)
      → b.hdr ≡ o
      → get_height b ≡ some (pos n, b)
      → to_compact sha256 b ≡ some (c, b')
      → (c.height ≡ n % 2 ^ 64)
        × ((raw : RawBlockHeader) × (c.hash ≡ get_encodable_hash sha256 raw))
  unfolding to_compact compact_with
  compact_of none b n c b' d g h =
      absurd (let e : none ≡ some (c, b') = rw (to_compact, d) at h in none-ne-some _ e)
  compact_of (some hdr) b n c b' d g h =
      let e : some (compact_with sha256 hdr (pos n, b)) ≡ some (c, b') =
        rw (to_compact, d, g) at h in
      let p = some-injective _ _ e in
      (sym (ap (λ r. r.0.height) p), (hdr.raw, sym (ap (λ r. r.0.hash) p)))

  pub get_block_from_rpc-height :
      (height : ℕ) (reply : BlockReply) (c : CompactBlock)
      → get_block_from_rpc sha256 height reply ≡ ok (ok (some c))
      → (c.height ≡ height) × ((raw : RawBlockHeader) × (c.hash ≡ get_encodable_hash sha256 raw))
  get_block_from_rpc-height height reply c h =
      let f = get_block_from_rpc-IsFetched height reply c h in
      let known =
        unknown_height (parse_parts f.block_data) f.full [] (unfold parse_block in f.whole) in
      let (small, again, hdr, vtx) =
        get_height_settles f.full f.settled (pos height) (rw known refl) f.height in
      let (same, hash) = compact_of f.settled.hdr f.settled height c f.compact refl again f.form in
      (same ∙ small_height height small, hash)

  pub get_block_from_rpc-decoded :
      (height : ℕ) (hex block_data : List ℕ) (b b' b'' : Block) (c : CompactBlock)
      → decode_string hex ≡ some block_data
      → parse_block new_block block_data ≡ (ok b, [])
      → get_height b ≡ some (pos height, b')
      → to_compact sha256 b' ≡ some (c, b'')
      → get_block_from_rpc sha256 height (ok (some hex)) ≡ ok (ok (some c))
  unfolding get_block_from_rpc
  get_block_from_rpc-decoded height hex block_data b b' b'' c d p g t =
      rw (get_block_from_rpc, d, p, g, same_number height, t) refl

  -- The block of a reply with the hexadecimal form of its bytes.
  pub get_block_from_rpc-encode :
      (height : ℕ) (block_data : List ℕ) (b b' b'' : Block) (c : CompactBlock)
      → All IsByte block_data
      → parse_block new_block block_data ≡ (ok b, [])
      → get_height b ≡ some (pos height, b')
      → to_compact sha256 b' ≡ some (c, b'')
      → get_block_from_rpc sha256 height (ok (some (encode_to_string block_data)))
        ≡ ok (ok (some c))
  get_block_from_rpc-encode height block_data b b' b'' c bytes p g t =
      get_block_from_rpc-decoded height (encode_to_string block_data) block_data b b' b'' c
        (decode_string-encode_to_string block_data bytes) p g t
