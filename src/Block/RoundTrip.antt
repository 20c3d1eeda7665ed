-- ===== src/Block/RoundTrip.antt =====
-- `Block.ParseFromSlice` and the layout of a block are inverse to one another.
use mathlib.Core.Path.{subst}
use lightwalletd.Common.{
  ℕ, zero, suc, ◌+◌, ◌≤◌, List, [], ◌∷◌, ◌++◌, ◌≡◌, refl, sym, ap, ◌∙◌, append-nil, length, All,
  IsByte, All-front, All-back, ◌↔◌, arith, Error, wrap_at, Result, ok, err, some, none,
}
use lightwalletd.Scan.{◌>>=◌, wrapping}
use lightwalletd.Scan.Local.{
  Reads, IsLocal, Reads-wrapping, Reads-wrapping_inv, Reads-pure, wrapping-IsLocal, Reads->>=,
  Reads->>=_inv, Reads-map, Reads-pure_inv, pure-IsLocal, >>=-IsLocal,
}
use lightwalletd.Scan.Codec.{
  Codec, Codec-accepts, Codec-iff, >>=-Codec, >>=-Codec_valid, pure-Codec, wrapping-Codec,
  concat_map,
}
use lightwalletd.Bytestring.{max_compact_size, read, read_uint32}
use lightwalletd.CompactSize.{compact_size}
use lightwalletd.CompactSize.RoundTrip.{compact_size-Codec}
use lightwalletd.Header.{RawBlockHeader, marshal_binary}
use lightwalletd.Header.RoundTrip.{
  IsWellFormed, header_bytes, parse_from_slice-Codec, marshal_binary-header_bytes,
}
use lightwalletd.Transaction.{Transaction, parse_transaction}
use lightwalletd.Transaction.Parse.{IsParsed, parse_transaction-Codec}
use lightwalletd.Block.Defs.{Block, parse_next, parse_vtx, parse_parts, parse_block, with_parts}

no_transaction : {tx : Transaction} → ¬ Reads parse_transaction [] tx
unfolding parse_transaction read_uint32 read wrapping ◌>>=◌
no_transaction h = cc (ap (λ p. p.0) (h.on []))

parse_next_more :
    (i : ℕ) (used more : List ℕ) {tx : Transaction}
    → Reads parse_transaction used tx
    → parse_next i (used ++ more)
      ≡ wrapping (λ e. wrap_at e "parsing transaction" i) parse_transaction (used ++ more)
parse_next_more i [] more h = absurd (no_transaction h)
parse_next_more i (b ∷ used) more h = unfold parse_next in refl

Reads-parse_next :
    (i : ℕ) {used : List ℕ} {tx : Transaction}
    → Reads parse_transaction used tx
    → Reads (parse_next i) used tx
Reads-parse_next i {used} h = record {
  on = λ more. parse_next_more i used more h ∙ (Reads-wrapping _ parse_transaction h).on more;
}

parse_next_split :
    (i : ℕ) (s : List ℕ) (tx : Transaction) (rest : List ℕ)
    → parse_next i s ≡ (ok tx, rest)
    → (used : List ℕ) × (s ≡ used ++ rest) × Reads parse_transaction used tx
parse_next_split i [] tx rest e = absurd (unfold parse_next in cc (ap (λ p. p.0) e))
parse_next_split i (b ∷ s) tx rest e =
    let (used, p, x) =
      (wrapping-IsLocal (λ e. wrap_at e "parsing transaction" i) parse_transaction
          parse_transaction-Codec.local).at
        (b ∷ s) tx rest (unfold parse_next in e) in
    (used, p, Reads-wrapping_inv _ parse_transaction x)

parse_next-Codec : (i : ℕ) → Codec (parse_next i) IsParsed (λ tx. tx.raw_bytes)
parse_next-Codec i = record {
  local = record {
    at = λ s tx rest e.
        let (used, p, x) = parse_next_split i s tx rest e in (used, p, Reads-parse_next i x);
  };
  reads = λ tx w. Reads-parse_next i (parse_transaction-Codec.reads tx w);
  only = λ used tx b h.
      let (used', p, x) = parse_next_split i (used ++ []) tx [] (h.on []) in
      let whole : used ≡ used' = sym (append-nil used) ∙ p ∙ append-nil used' in
      let (u, w) = parse_transaction-Codec.only used' tx (subst (All IsByte) whole b) x in
      (whole ∙ u, w);
}

-- `n` transactions, numbered from `i`, are their bytes one after the other.
abbrev pub AreParsed : ℕ → List Transaction → Type 0
AreParsed n txs = (length txs ≡ n) × All IsParsed txs

abbrev pub vtx_bytes : List Transaction → List ℕ
vtx_bytes txs = concat_map (λ tx. tx.raw_bytes) txs

parse_vtx-IsLocal : (n i : ℕ) → IsLocal (parse_vtx n i)
unfolding parse_vtx
parse_vtx-IsLocal zero i = pure-IsLocal []
parse_vtx-IsLocal (suc n) i =
    >>=-IsLocal (parse_next i) _ (parse_next-Codec i).local
      λ tx. >>=-IsLocal (parse_vtx n (i + 1)) _ (parse_vtx-IsLocal n (i + 1)) λ txs. pure-IsLocal _

parse_vtx-Reads :
    (n i : ℕ) (txs : List Transaction)
    → length txs ≡ n
    → All IsParsed txs
    → Reads (parse_vtx n i) (vtx_bytes txs) txs
unfolding parse_vtx
parse_vtx-Reads zero i [] h v = Reads-pure []
parse_vtx-Reads (suc n) i [] h v = absurd (omega arith)
parse_vtx-Reads zero i (x ∷ xs) h v = absurd (omega arith)
parse_vtx-Reads (suc n) i (x ∷ xs) h v =
    Reads->>= (parse_next i) _ ((parse_next-Codec i).reads x v.0) (
      Reads-map (parse_vtx n (i + 1)) (λ ys. x ∷ ys)
        (parse_vtx-Reads n (i + 1) xs (omega arith) v.1))

parse_vtx_only :
    (n i : ℕ) (used : List ℕ) (txs : List Transaction)
    → All IsByte used
    → Reads (parse_vtx n i) used txs
    → (used ≡ vtx_bytes txs) × AreParsed n txs
unfolding parse_vtx
parse_vtx_only zero i used txs b h =
    let (u, p) = Reads-pure_inv h in
    (u ∙ ap vtx_bytes p, (ap length (sym p), subst (All IsParsed) p tt))
parse_vtx_only (suc n) i used txs b h =
    let (x, u, w, s, r, k) =
      Reads->>=_inv (parse_next i) _ (parse_next-Codec i).local
        (λ x.
          >>=-IsLocal (parse_vtx n (i + 1)) _ (parse_vtx-IsLocal n (i + 1))
            (λ xs. pure-IsLocal (x ∷ xs)))
        h in
    let (ys, u', w', s', r', k') =
      Reads->>=_inv (parse_vtx n (i + 1)) _ (parse_vtx-IsLocal n (i + 1))
        (λ xs. pure-IsLocal (x ∷ xs)) k in
    let (z, p) = Reads-pure_inv k' in
    let us : w ≡ u' = s' ∙ ap (λ l. u' ++ l) z ∙ append-nil u' in
    let bs : All IsByte (u ++ w) = subst (All IsByte) s b in
    let (eu, vx) = (parse_next-Codec i).only u x (All-front IsByte u w bs) r in
    let (ew, (l, vs)) =
      parse_vtx_only n (i + 1) u' ys (subst (All IsByte) us (All-back IsByte u w bs)) r' in
    (
      s ∙ (λ j. eu j ++ (us ∙ ew) j) ∙ ap vtx_bytes p,
      (ap length (sym p) ∙ ap suc l, subst (All IsParsed) p (vx, vs)),
    )

parse_vtx-Codec : (n i : ℕ) → Codec (parse_vtx n i) (AreParsed n) vtx_bytes
parse_vtx-Codec n i = record {
  local = parse_vtx-IsLocal n i;
  reads = λ txs v. parse_vtx-Reads n i txs v.0 v.1;
  only = parse_vtx_only n i;
}

pub record IsSizedBlock (p : RawBlockHeader × List Transaction) : Type 0 where
  pub header : IsWellFormed p.0
  pub count : length p.1 ≤ max_compact_size
  pub parsed : All IsParsed p.1

-- A block is its header, the number of its transactions, and their bytes.
abbrev pub block_bytes : RawBlockHeader × List Transaction → List ℕ
block_bytes p = marshal_binary p.0 ++ (compact_size (length p.1) ++ vtx_bytes p.1)

as_marshalled :
    (p : RawBlockHeader × List Transaction)
    → IsWellFormed p.0
    → header_bytes p.0 ++ (compact_size (length p.1) ++ vtx_bytes p.1) ≡ block_bytes p
as_marshalled p w =
    ap (λ l. l ++ (compact_size (length p.1) ++ vtx_bytes p.1))
      (sym (marshal_binary-header_bytes p.0 w))

parts-Codec : Codec parse_parts IsSizedBlock block_bytes
unfolding parse_parts
parts-Codec =
    Codec-iff
      (>>=-Codec (λ p. p.0) (λ _. Unit {0}) (wrapping-Codec _ parse_from_slice-Codec)
        λ a.
          >>=-Codec (λ p. length p.1) _ (wrapping-Codec _ compact_size-Codec)
            λ n.
              >>=-Codec_valid (λ p. p.1) _ (parse_vtx-Codec n 0) (λ v. pure-IsLocal (a, v))
                λ v w.
                  pure-Codec _ (λ _. Unit {0}) _ ((((tt, refl), w.0), refl), tt)
                    (λ p k _. ground arith))
      (λ p w. (
        (tt, (w.header, (w.count, ((refl, w.parsed), tt)))),
        simp append-nil (as_marshalled p w.header),
      ))
      (λ p v. (
        record { header = v.1.0; count = v.1.1.0; parsed = v.1.1.1.0.1 },
        simp append-nil (as_marshalled p v.1.0),
      ))

-- The block `b` with a header and transactions set.
abbrev pub filled : Block → RawBlockHeader × List Transaction → Block
filled b p = record b { hdr = some (record { raw = p.0; cached_hash = none }); vtx = p.1 }

with_parts_ok :
    (b b' : Block) (r : Result Error (RawBlockHeader × List Transaction)) (s rest : List ℕ)
    → with_parts b (r, s) ≡ (ok b', rest)
    → (p : RawBlockHeader × List Transaction) × (r ≡ ok p) × (s ≡ rest) × (b' ≡ filled b p)
with_parts_ok b b' (ok p) s rest e = (p, refl, ground arith, ground arith)
with_parts_ok b b' (err x) s rest e = absurd (cc (ap (λ p. p.0) e))

-- On a string of bytes the parser fills the block `b` exactly with the header and the transactions
-- that stand there: the marshalled header, the number of transactions, the bytes of each, and the
-- rest behind them. The height that `b` knows is kept.
pub parse_block_accepts :
    (b b' : Block) (input rest : List ℕ)
    → All IsByte input
    → (parse_block b input ≡ (ok b', rest)) ↔ (
        (p : RawBlockHeader × List Transaction) × (b' ≡ filled b p)
        × IsSizedBlock p
        × (input ≡ block_bytes p ++ rest))
parse_block_accepts b b' input rest bs = (
  λ e.
      let (p, r, s, k) =
        with_parts_ok b b' (parse_parts input).0 (parse_parts input).1 rest
          (unfold parse_block in e) in
      let (w, q) = (Codec-accepts parts-Codec input p rest bs).0 (λ i. (r i, s i)) in (p, k, w, q),
  λ (p, k, w, q).
      unfold parse_block in
      ap (with_parts b) ((Codec-accepts parts-Codec input p rest bs).1 (w, q)) ∙ λ i.
      (ok (sym k i), rest),
)
