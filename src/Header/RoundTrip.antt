-- ===== src/Header/RoundTrip.antt =====
-- `ParseFromSlice` and `MarshalBinary` are inverse to one another.
use lightwalletd.Common.{
  ℕ, ◌+◌, ◌≤◌, ◌<◌, ◌^◌, List, ◌++◌, ◌≡◌, refl, sym, ap, ◌∙◌, append-nil, append_assoc, length,
  length-append, All, IsByte, ◌≢◌, ◌↔◌, arith, ok, err, Result, Error,
}
use lightwalletd.Common.Int.{IsInt32, to_uint32}
use lightwalletd.Scan.Local.{Reads}
use lightwalletd.Scan.Codec.{Codec, Codec-accepts, Codec-iff, >>=-Codec, pure-Codec, wrapping-Codec}
use lightwalletd.Bytestring.{max_compact_size}
use lightwalletd.Bytestring.Words.{le_bytes, length-le_bytes}
use lightwalletd.Bytestring.Bytes.{read_bytes-Codec, read_uint32-Codec, read_int32-Codec}
use lightwalletd.Buffer.{new_buffer-IsWhole, write-IsWhole, slice_backing-IsWhole}
use lightwalletd.CompactSize.{compact_size, compact_length_prefixed_len}
use lightwalletd.CompactSize.RoundTrip.{prefixed, read_compact_length_prefixed-Codec}
use lightwalletd.CompactSize.Written.{length-compact_size, write_compact_length_prefixed-IsWhole}
use lightwalletd.Header.Defs.{
  RawBlockHeader, parse_header, marshal_binary, get_size, parse_from_slice, returned,
  ser_block_header_minus_equihash_size,
}

-- A header as it stands in a block: hashes of 32 bytes, and so on.
pub record IsWellFormed (h : RawBlockHeader) : Type 0 where
  pub version : IsInt32 h.version
  pub prev : length h.hash_prev_block ≡ 32
  pub merkle : length h.hash_merkle_root ≡ 32
  pub root : length h.hash_final_sapling_root ≡ 32
  pub time : h.time < 2 ^ 32
  pub bits : length h.n_bits_bytes ≡ 4
  pub nonce : length h.nonce ≡ 32
  pub solution : length h.solution ≤ max_compact_size

-- The same facts in the order of the reads, as the rules for scanners collect them.
abbrev Fields : RawBlockHeader → Type 0
Fields h =
    Unit {0}
    × (IsInt32 h.version
        × ((length h.hash_prev_block ≡ 32)
            × ((length h.hash_merkle_root ≡ 32)
                × ((length h.hash_final_sapling_root ≡ 32)
                    × ((h.time < 2 ^ 32)
                        × ((length h.n_bits_bytes ≡ 4)
                            × ((length h.nonce ≡ 32)
                                × ((length h.solution ≤ max_compact_size) × Unit {0}))))))))

-- The layout of the wire format.
abbrev pub header_bytes : RawBlockHeader → List ℕ
header_bytes h =
    le_bytes 4 (to_uint32 h.version)
    ++ (h.hash_prev_block
        ++ (h.hash_merkle_root
            ++ (h.hash_final_sapling_root
                ++ (le_bytes 4 h.time ++ (h.n_bits_bytes ++ (h.nonce ++ prefixed h.solution))))))

pub header-Codec : Codec parse_header IsWellFormed header_bytes
unfolding parse_header
header-Codec =
    Codec-iff
      (>>=-Codec (λ h. h.version) (λ _. Unit {0}) (wrapping-Codec _ read_int32-Codec)
        λ a.
          >>=-Codec (λ h. h.hash_prev_block) _ (wrapping-Codec _ (read_bytes-Codec 32))
            λ b.
              >>=-Codec (λ h. h.hash_merkle_root) _ (wrapping-Codec _ (read_bytes-Codec 32))
                λ c.
                  >>=-Codec (λ h. h.hash_final_sapling_root) _
                    (wrapping-Codec _ (read_bytes-Codec 32))
                    λ d.
                      >>=-Codec (λ h. h.time) _ (wrapping-Codec _ read_uint32-Codec)
                        λ e.
                          >>=-Codec (λ h. h.n_bits_bytes) _ (wrapping-Codec _ (read_bytes-Codec 4))
                            λ f.
                              >>=-Codec (λ h. h.nonce) _ (wrapping-Codec _ (read_bytes-Codec 32))
                                λ g.
                                  >>=-Codec (λ h. h.solution) _
                                    (wrapping-Codec _ read_compact_length_prefixed-Codec)
                                    λ s.
                                      pure-Codec _ (λ _. Unit {0}) _ (ground arith)
                                        (λ c k _. ground arith))
      (λ h w. (from w, simp append-nil)) (λ h v. (to v, simp append-nil))
  where
    from : {h : RawBlockHeader} → IsWellFormed h → Fields h
    from w = assumption

    to : {h : RawBlockHeader} → Fields h → IsWellFormed h
    to v = assumption

-- The size that `getSize` computes is that of the serialized header.
length-header_bytes : (h : RawBlockHeader) → IsWellFormed h → length (header_bytes h) ≡ get_size h
unfolding get_size
length-header_bytes h w =
    simp length-append (omega (arith, length-le_bytes, length-compact_size (length h.solution)))

left_nested :
    (h : RawBlockHeader)
    → header_bytes h
      ≡ le_bytes 4 (to_uint32 h.version)
        ++ h.hash_prev_block
        ++ h.hash_merkle_root
        ++ h.hash_final_sapling_root
        ++ le_bytes 4 h.time
        ++ h.n_bits_bytes
        ++ h.nonce
        ++ compact_size (length h.solution)
        ++ h.solution
left_nested h = simp append_assoc

pub marshal_binary-header_bytes :
    (h : RawBlockHeader) → IsWellFormed h → marshal_binary h ≡ header_bytes h
marshal_binary-header_bytes h w =
    unfold marshal_binary in
    slice_backing-IsWhole
      (write_compact_length_prefixed-IsWhole h.solution (
        write-IsWhole h.nonce (
          write-IsWhole h.n_bits_bytes (
            write-IsWhole (le_bytes 4 h.time) (
              write-IsWhole h.hash_final_sapling_root (
                write-IsWhole h.hash_merkle_root (
                  write-IsWhole h.hash_prev_block (
                    write-IsWhole (le_bytes 4 (to_uint32 h.version))
                      (new_buffer-IsWhole (get_size h))))))))))
      (ap length (sym (left_nested h)) ∙ length-header_bytes h w)
    ∙ sym (left_nested h)

returned_ok :
    (input : List ℕ) (r : Result Error RawBlockHeader) (s : List ℕ) {h : RawBlockHeader}
    {rest : List ℕ}
    → returned input (r, s) ≡ (ok h, rest)
    → ◌≡◌ {A = Result Error RawBlockHeader × List ℕ} (r, s) (ok h, rest)
returned_ok input (ok g) s e = e
returned_ok input (err g) s e = absurd (cc (ap (λ p. p.0) e))

pub parse_from_slice-Codec : Codec parse_from_slice IsWellFormed header_bytes
parse_from_slice-Codec = record {
  local = record {
    at = λ input h rest e.
        let (used, p, r) = header-Codec.local.at input h rest (parsed input h rest e) in
        (used, p, reads used h r);
  };
  reads = λ h w. reads (header_bytes h) h (header-Codec.reads h w);
  only = λ used h b r.
      header-Codec.only used h b (record { on = λ more. parsed _ h more (r.on more) });
}
  where
    parsed :
        (input : List ℕ) (h : RawBlockHeader) (rest : List ℕ)
        → parse_from_slice input ≡ (ok h, rest)
        → parse_header input ≡ (ok h, rest)
    parsed input h rest e =
        unfold parse_from_slice in returned_ok input (parse_header input).0 (parse_header input).1 e

    reads :
        (used : List ℕ) (h : RawBlockHeader)
        → Reads parse_header used h
        → Reads parse_from_slice used h
    reads used h r = record {
      on = λ more. unfold parse_from_slice in ap (returned (used ++ more)) (r.on more);
    }

-- On a string of bytes the parser returns a header exactly if the string is that header as
-- `MarshalBinary` serialises it, with the rest behind it, and the header is well formed.
pub parse_from_slice_accepts :
    (input : List ℕ) (h : RawBlockHeader) (rest : List ℕ)
    → All IsByte input
    → (parse_from_slice input ≡ (ok h, rest))
      ↔ (IsWellFormed h × (input ≡ marshal_binary h ++ rest))
parse_from_slice_accepts input h rest b =
    let (there, back) = Codec-accepts parse_from_slice-Codec input h rest b in
    (
      λ e.
          let (w, p) = there e in
          (w, p ∙ ap (λ l. l ++ rest) (sym (marshal_binary-header_bytes h w))),
      λ (w, p). back (w, p ∙ ap (λ l. l ++ rest) (marshal_binary-header_bytes h w)),
    )

returned_err :
    (input : List ℕ) (p : Result Error RawBlockHeader × List ℕ)
    → ((h : RawBlockHeader) → p.0 ≢ ok h)
    → (e : Error) × (returned input p ≡ (err e, input))
returned_err input (ok h, s) n = absurd (n h refl)
returned_err input (err e, s) n = (e, refl)

-- Fewer than 141 bytes are no header: the parser answers an error and the input, unaltered.
pub parse_from_slice_short :
    (input : List ℕ)
    → All IsByte input
    → length input < ser_block_header_minus_equihash_size + 1
    → (e : Error) × (parse_from_slice input ≡ (err e, input))
parse_from_slice_short input b short =
    unfold parse_from_slice in
    returned_err input (parse_header input) λ h e.
      too_long h _ ((Codec-accepts header-Codec input h _ b).0 (λ i. (e i, (parse_header input).1)))
  where
    too_long :
        (h : RawBlockHeader) (rest : List ℕ) → IsWellFormed h × (input ≡ header_bytes h ++ rest) → ⊥
    too_long h rest (w, s) =
        unfold get_size compact_length_prefixed_len in
        ground (arith, ap length s, length-append (header_bytes h) rest, length-header_bytes h w)
