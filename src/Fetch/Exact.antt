-- ===== src/Fetch/Exact.antt =====
-- Which replies `getBlockFromRPC` takes a block from, and which block.
use mathlib.Core.Option.{some-injective, none-ne-some}
use mathlib.Core.Path.{subst}
use lightwalletd.Common.{
  ℕ, ◌*◌, ◌+◌, ◌%◌, ◌^◌, ◌<◌, List, [], ◌∷◌, ◌≡◌, ◌↔◌, refl, ap, sym, ◌∙◌, arith, All, IsByte,
  Option, none, some, ok, append-nil,
}
use lightwalletd.Common.Int.{pos}
use lightwalletd.Header.{RawBlockHeader, BlockHeader}
use lightwalletd.Transaction.{Transaction}
use lightwalletd.Block.{
  Block, new_block, parse_block, get_height, CompactBlock, to_compact, compact_with, compact_vtx,
}
use lightwalletd.Block.Height.{get_height_settles}
use lightwalletd.Block.RoundTrip.{IsSizedBlock, block_bytes, filled, parse_block_accepts}
use lightwalletd.Header.{marshal_binary, get_encodable_hash}
use lightwalletd.Fetch.Defs.{hex_value, hex_byte, decode_string, BlockReply, get_block_from_rpc}
use lightwalletd.Fetch.Height.{
  small_height, get_block_from_rpc-IsFetched, get_block_from_rpc-decoded,
}

hex_value_lt : (c v : ℕ) → hex_value c ≡ some v → v < 16
hex_value_lt c v h = ground arith

hex_byte-IsByte :
    (h l : Option ℕ) (rest : Option (List ℕ)) (bs : List ℕ)
    → ((v : ℕ) → h ≡ some v → v < 16)
    → ((v : ℕ) → l ≡ some v → v < 16)
    → ((r : List ℕ) → rest ≡ some r → All IsByte r)
    → hex_byte h l rest ≡ some bs
    → All IsByte bs
hex_byte-IsByte none l rest bs p q k e = absurd (none-ne-some bs e)
hex_byte-IsByte (some h) none rest bs p q k e = absurd (none-ne-some bs e)
hex_byte-IsByte (some h) (some l) none bs p q k e = absurd (none-ne-some bs e)
hex_byte-IsByte (some h) (some l) (some r) bs p q k e =
    subst (All IsByte) (some-injective ((h * 16 + l) ∷ r) bs e)
      (omega (arith, p h refl, q l refl), k r refl)

-- What `DecodeString` returns are bytes.
decode_string-IsByte : (s bs : List ℕ) → decode_string s ≡ some bs → All IsByte bs
unfolding decode_string
decode_string-IsByte [] bs e = subst (All IsByte) (some-injective [] bs e) tt
decode_string-IsByte (c ∷ []) bs e = absurd (none-ne-some bs e)
decode_string-IsByte (c ∷ d ∷ s) bs e =
    hex_byte-IsByte (hex_value c) (hex_value d) (decode_string s) bs (hex_value_lt c)
      (hex_value_lt d) (decode_string-IsByte s) e

module _ (sha256 : List ℕ → List ℕ) where
  -- The compact form of a header and transactions at a height.
  abbrev pub compact_form : ℕ → RawBlockHeader × List Transaction → CompactBlock
  compact_form height p = record {
    height = height;
    hash = sha256 (sha256 (marshal_binary p.0));
    prev_hash = p.0.hash_prev_block;
    time = p.0.time;
    vtx = compact_vtx sha256 0 p.1;
  }

  -- The reply is the hexadecimal form of the bytes of one block and nothing more: of a header, the number
  -- of its transactions, and these. The height that its coinbase holds is the one that was asked for.
  pub record IsAnswer (asked : ℕ) (reply : BlockReply) (block : CompactBlock) : Type 0 where
    pub hex : List ℕ
    pub parts : RawBlockHeader × List Transaction
    pub settled : Block
    pub replied : reply ≡ ok (some hex)
    pub sized : IsSizedBlock parts
    pub bytes : decode_string hex ≡ some (block_bytes parts)
    pub height : get_height (filled new_block parts) ≡ some (pos asked, settled)
    pub form : block ≡ compact_form asked parts

  to_compact-known :
      (b : Block) (hdr : BlockHeader) (height : ℕ)
      → b.hdr ≡ some hdr
      → get_height b ≡ some (pos height, b)
      → to_compact sha256 b ≡ some (compact_with sha256 hdr (pos height, b))
  unfolding to_compact
  to_compact-known b hdr height d g = λ i. elim (d i) [
    | none ↦ none
    | some h ↦ elim (g i) [ none ↦ none | some r ↦ some (compact_with sha256 h r) ]
  ]

  -- `ToCompact` of the block once its height is known.
  compact_of_parts :
      (height : ℕ) (p : RawBlockHeader × List Transaction) (settled : Block)
      → get_height (filled new_block p) ≡ some (pos height, settled)
      → to_compact sha256 settled ≡ some (compact_form height p, settled)
  unfolding compact_with get_encodable_hash
  compact_of_parts height p settled g =
      let (small, again, hdr, vtx) =
        get_height_settles (filled new_block p) settled (pos height) refl g in
      let low : height % 2 ^ 64 ≡ height = small_height height small in
      to_compact-known settled (record { raw = p.0; cached_hash = none }) height hdr again ∙ λ i.
      some (
        record (compact_form height p) { height = low i; vtx = compact_vtx sha256 0 (vtx i) },
        settled,
      )

  -- A reply is answered with a block exactly if it is the hexadecimal form of the bytes of one block and
  -- nothing more, whose coinbase holds the height that was asked for; and the answer has this height,
  -- the double hash of the header, the previous block's hash, the time, and the compact transactions.
  pub get_block_from_rpc-IsAnswer :
      (height : ℕ) (reply : BlockReply) (c : CompactBlock)
      → (get_block_from_rpc sha256 height reply ≡ ok (ok (some c))) ↔ IsAnswer height reply c
  get_block_from_rpc-IsAnswer height reply c = (
    λ h.
        let f = get_block_from_rpc-IsFetched sha256 height reply c h in
        let (p, full, sized, bytes) =
          (parse_block_accepts new_block f.full f.block_data []
              (decode_string-IsByte f.hex f.block_data f.read)).0
            f.whole in
        let g : get_height (filled new_block p) ≡ some (pos height, f.settled) =
          rw full at f.height in
        record {
          hex = f.hex;
          parts = p;
          settled = f.settled;
          replied = f.replied;
          sized = sized;
          bytes = f.read ∙ ap some (bytes ∙ append-nil (block_bytes p));
          height = g;
          form =
              ap (λ r. r.0)
                (some-injective _ _ (sym f.form ∙ compact_of_parts height p f.settled g));
        },
    λ a.
        let whole : parse_block new_block (block_bytes a.parts)
            ≡ (ok (filled new_block a.parts), []) =
          (parse_block_accepts new_block (filled new_block a.parts) (block_bytes a.parts) []
              (decode_string-IsByte a.hex (block_bytes a.parts) a.bytes)).1
            (a.parts, refl, a.sized, sym (append-nil (block_bytes a.parts))) in
        rw (a.replied, a.form)
          (get_block_from_rpc-decoded sha256 height a.hex (block_bytes a.parts)
            (filled new_block a.parts) a.settled a.settled (compact_form height a.parts) a.bytes
            whole a.height (compact_of_parts height a.parts a.settled a.height)),
  )
