-- ===== src/Address/Converted.antt =====
-- Which addresses are converted, and to what.
use lightwalletd.Common.{
  ℕ, ◌+◌, List, [], ◌∷◌, ◌++◌, ◌≡◌, ◌↔◌, refl, sym, ap, ◌∙◌, arith, true, some, ==_iff, length,
  take, length-take, length-append, take_front, drop_front,
}
use lightwalletd.BlockCache.Holds.{same_bytes_refl}
use lightwalletd.Address.Defs.{
  starts_with, checksum4, with_checksum, checked, has_scheme, decode_pq, yed_to_transparent,
  yed_pq_to_plain,
}
use lightwalletd.Address.Versions.{
  IsTransparentVersion, IsPlainVersion, transparent_version, plain_version,
}
use lightwalletd.Address.Payload.{
  summed, IsPayload, IsScheme, yed_to_transparent-IsPayload, yed_pq_to_plain-IsPayload,
}

module _ (sha256 : List ℕ → List ℕ) (decode : List ℕ → List ℕ) (encode : List ℕ → List ℕ) where
  length-summed :
      (version : ℕ × ℕ) (hash : List ℕ)
      → ((x : List ℕ) → length (sha256 x) ≡ 32)
      → length (summed sha256 decode encode version hash) ≡ length hash + 6
  length-summed version hash k =
      let p = version.0 ∷ version.1 ∷ hash in
      omega (
        arith,
        length-append p (take 4 (sha256 (sha256 p))),
        length-take 4 (sha256 (sha256 p)),
        k (sha256 p),
      )

  with_checksum-summed :
      (version : ℕ × ℕ) (hash : List ℕ)
      → with_checksum sha256 version hash ≡ summed sha256 decode encode version hash
  unfolding with_checksum checksum4
  with_checksum-summed version hash = refl

  take_bytes : (n : ℕ) (hash rest : List ℕ) → length hash ≡ n → take n (hash ++ rest) ≡ hash
  take_bytes n hash rest l = rw (← l) (take_front hash rest)

  checked_parts :
      (n : ℕ) (p sum : List ℕ)
      → length p ≡ n
      → sum ≡ checksum4 sha256 p
      → checked sha256 decode encode n (p ++ sum) ≡ true
  checked_parts n p sum l e =
      rw (← l, take_front p sum, drop_front p sum, e) (same_bytes_refl (checksum4 sha256 p))

  checked-summed :
      (n : ℕ) (version : ℕ × ℕ) (hash : List ℕ)
      → length hash + 2 ≡ n
      → checked sha256 decode encode n (summed sha256 decode encode version hash) ≡ true
  checked-summed n version hash l =
      let p = version.0 ∷ version.1 ∷ hash in
      checked_parts n p (take 4 (sha256 (sha256 p))) (omega (arith, l)) (unfold checksum4 in refl)

  take-summed :
      (n : ℕ) (version : ℕ × ℕ) (hash : List ℕ)
      → length hash + 2 ≡ n
      → take n (summed sha256 decode encode version hash) ≡ version.0 ∷ version.1 ∷ hash
  take-summed n version hash l =
      let p = version.0 ∷ version.1 ∷ hash in
      take_bytes n p (take 4 (sha256 (sha256 p))) (omega (arith, l))

  has_scheme-summed :
      (version : ℕ × ℕ) (hash : List ℕ)
      → IsScheme sha256 decode encode hash
      → has_scheme sha256 decode encode (summed sha256 decode encode version hash) ≡ true
  has_scheme-summed version [] s = absurd s
  has_scheme-summed version (c ∷ hash) s = ground arith

  pub decode_pq-payload :
      (addr : List ℕ) (first : ℕ) (from : ℕ × ℕ) (hash : List ℕ)
      → ((x : List ℕ) → length (sha256 x) ≡ 32)
      → length addr ≡ 53
      → starts_with first addr ≡ true
      → length hash ≡ 33
      → IsScheme sha256 decode encode hash
      → decode addr ≡ summed sha256 decode encode from hash
      → decode_pq sha256 decode encode addr first ≡ some (from.0 ∷ from.1 ∷ hash)
  unfolding decode_pq
  decode_pq-payload addr first from hash k long y size scheme d =
      let whole : length (summed sha256 decode encode from hash) ≡ 39 =
        omega (arith, length-summed from hash k, size) in
      rw
        (
          d,
          (==_iff (length addr) 53).1 long,
          y,
          (==_iff (length (summed sha256 decode encode from hash)) 39).1 whole,
          has_scheme-summed from hash scheme,
          checked-summed 35 from hash (omega (arith, size)),
        )
        (ap some (take-summed 35 from hash (omega (arith, size))))

  -- An address is converted to a transparent form exactly if it has 35 characters, begins with `y` and
  -- stands for the version bytes of a YED address, 20 bytes of a hash and the checksum; the form is the
  -- base58 form of the transparent version bytes of the same network, the same hash and its checksum.
  -- SHA-256 gives 32 bytes.
  pub yed_to_transparent_converts :
      ((x : List ℕ) → length (sha256 x) ≡ 32)
      → (addr t : List ℕ)
      → (yed_to_transparent sha256 decode encode addr ≡ some t) ↔ (
          (length addr ≡ 35)
          × (starts_with 121 addr ≡ true)
          × IsPayload sha256 decode encode IsTransparentVersion 20 addr t)
  unfolding yed_to_transparent
  yed_to_transparent_converts k addr t = (
    yed_to_transparent-IsPayload sha256 decode encode addr t,
    λ (long, y, w).
        let raw = summed sha256 decode encode w.from w.hash in
        let whole : length raw ≡ 26 = omega (arith, length-summed w.from w.hash k, w.size) in
        rw
          (
            w.bytes,
            (==_iff (length addr) 35).1 long,
            y,
            (==_iff (length raw) 26).1 whole,
            checked-summed 22 w.from w.hash (omega (arith, w.size)),
            take_bytes 20 w.hash _ w.size,
            transparent_version w.from w.to w.known,
          )
          (ap some (ap encode (with_checksum-summed w.to w.hash) ∙ sym w.same)),
  )

  -- An address is converted to a plain form exactly if it has 53 characters, begins with `y` and stands
  -- for the version bytes of a post-quantum YED address, a scheme byte 1 or 2 with 32 bytes of a hash,
  -- and the checksum; the form is the base58 form of the plain version bytes of the same network, the
  -- same scheme and hash and their checksum. SHA-256 gives 32 bytes.
  pub yed_pq_to_plain_converts :
      ((x : List ℕ) → length (sha256 x) ≡ 32)
      → (addr p : List ℕ)
      → (yed_pq_to_plain sha256 decode encode addr ≡ some p) ↔ (
          (length addr ≡ 53)
          × (starts_with 121 addr ≡ true)
          × ((w : IsPayload sha256 decode encode IsPlainVersion 33 addr p) × IsScheme sha256 decode
                encode w.hash))
  unfolding yed_pq_to_plain
  yed_pq_to_plain_converts k addr p = (
    yed_pq_to_plain-IsPayload sha256 decode encode addr p,
    λ (long, y, (w, scheme)).
        rw
          (
            decode_pq-payload addr 121 w.from w.hash k long y w.size scheme w.bytes,
            plain_version w.from w.to w.known,
          )
          (ap some (ap encode (with_checksum-summed w.to w.hash) ∙ sym w.same)),
  )
