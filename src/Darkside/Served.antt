-- ===== src/Darkside/Served.antt =====
-- What the mock node serves is what `getBlockFromRPC` takes.
use mathlib.Core.Option.{none-ne-some}
use lightwalletd.Common.{
  ℕ, ◌+◌, List, [], ◌∷◌, ◌≡◌, refl, sym, ap, ◌∙◌, arith, false, Option, none, some, Option-cases,
  inl, inr, Error, Result, ok, err, le→ltb, get_elem?,
}
use lightwalletd.Common.Int.{ℤ, pos, ltb_ℤ}
use lightwalletd.Header.{RawBlockHeader, BlockHeader}
use lightwalletd.Transaction.{Transaction}
use lightwalletd.Block.{
  Block, new_block, parse_block, parse_parts, with_parts, get_height, CompactBlock, to_compact,
  compact_with,
}
use lightwalletd.Block.Height.{get_height_settles}
use lightwalletd.BlockCache.Holds.{add-sub_left}
use lightwalletd.Fee.{encode_to_string}
use lightwalletd.Fetch.{BlockReply, get_block_from_rpc}
use lightwalletd.Fetch.Height.{unknown_height, get_block_from_rpc-encode}
use lightwalletd.Darkside.Defs.{Darkside}
use lightwalletd.Darkside.Requests.{unless_empty, active_within, darkside_getblock}
use lightwalletd.Darkside.Active.{AreActive, IsActive-at}

with_header :
    (r : Result Error (RawBlockHeader × List Transaction) × List ℕ) (b : Block) (rest : List ℕ)
    → with_parts new_block r ≡ (ok b, rest)
    → (hdr : BlockHeader) × (b.hdr ≡ some hdr)
with_header (err e, s) b rest h = absurd (ground arith)
with_header (ok p, s) b rest h = (record { raw = p.0; cached_hash = none }, cc)

not_empty :
    (bs : List (List ℕ)) (i : ℕ) (b : List ℕ) (reply : BlockReply)
    → get_elem? bs i ≡ some b
    → unless_empty bs reply ≡ reply
not_empty [] i b reply h = absurd (ground arith)
not_empty (c ∷ bs) i b reply h = refl

-- An active block that is not above the latest height is served.
darkside_getblock-active :
    (d : Darkside) (i : ℕ) (block : List ℕ)
    → get_elem? d.active_blocks i ≡ some block
    → ltb_ℤ d.latest_height (pos (d.start_height + i)) ≡ false
    → darkside_getblock d (d.start_height + i) ≡ ok (some (encode_to_string block))
unfolding darkside_getblock
darkside_getblock-active d i block e l =
    not_empty d.active_blocks i block (active_within d (d.start_height + i)) e
    ∙ rw
        (
          l,
          le→ltb (d.start_height + i) d.start_height (omega arith),
          add-sub_left d.start_height i,
          e,
        )
        refl

module _ (sha256 : List ℕ → List ℕ) where
  compact_some :
      (b : Block) (h : ℤ) (o : Option BlockHeader)
      → b.hdr ≡ o
      → ((hdr : BlockHeader) × (o ≡ some hdr))
      → get_height b ≡ some (h, b)
      → (c : CompactBlock) × (b' : Block) × (to_compact sha256 b ≡ some (c, b'))
  unfolding to_compact
  compact_some b h none d (hdr, e) g = absurd (ground arith)
  compact_some b h (some hdr) d e g = elim (Option-cases (to_compact sha256 b)) [
    | inl p ↦ absurd (
        let q : some (compact_with sha256 hdr (h, b)) ≡ none = rw (to_compact, d, g) at p in
        none-ne-some _ (sym q))
    | inr (r, e') ↦ (r.0, r.1, e')
  ]

  -- A block that stands among the active ones, at the height that is read from it, and is not above the
  -- latest height of the mock node, is fetched from it: `getBlockFromRPC` answers with a block.
  pub darkside_getblock-fetched :
      (d : Darkside) (i : ℕ) (block : List ℕ)
      → AreActive d.start_height d.active_blocks
      → get_elem? d.active_blocks i ≡ some block
      → ltb_ℤ d.latest_height (pos (d.start_height + i)) ≡ false
      → (c : CompactBlock) × (get_block_from_rpc sha256
            (d.start_height + i)
            (darkside_getblock d (d.start_height + i))
          ≡ ok (ok (some c)))
  darkside_getblock-fetched d i block a e l =
      let height = d.start_height + i in
      let k = IsActive-at d.start_height i d.active_blocks block a e in
      let parsed : with_parts new_block (parse_parts block) ≡ (ok k.full, []) =
        unfold parse_block in k.whole in
      let known = unknown_height sha256 (parse_parts block) k.full [] parsed in
      let (small, again, same, vtx) =
        get_height_settles k.full k.settled (pos height) (rw known refl) k.height in
      let (c, b', form) =
        compact_some k.settled (pos height) k.full.hdr same
          (with_header (parse_parts block) k.full [] parsed) again in
      (
        c,
        ap (get_block_from_rpc sha256 height) (darkside_getblock-active d i block e l)
            ∙ get_block_from_rpc-encode sha256 height block k.full k.settled b' c k.bytes k.whole
                k.height form,
      )
