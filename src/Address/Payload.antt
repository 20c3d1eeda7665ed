-- ===== src/Address/Payload.antt =====
-- What the address conversions keep: the scheme and the key's hash, under other version bytes.
use mathlib.Core.Path.{subst}
use mathlib.Core.Option.{some-injective, none-ne-some}
use lightwalletd.Common.{
  and_true, ℕ, ◌+◌, List, [], ◌∷◌, ◌++◌, ◌≡◌, refl, sym, ap, ◌∙◌, arith, Bool, true, false, not,
  ◌&&◌, ◌||◌, ◌⊎◌, Option, none, some, ◌==◌, ==_iff, if◌then◌else◌, length, take, length-take,
  take-append-drop,
}
use lightwalletd.BlockCache.Holds.{same_bytes_eq}
use lightwalletd.Address.Versions.{
  IsTransparentVersion, IsPlainVersion, version_in-IsTransparentVersion, version_in-IsPlainVersion,
}
use lightwalletd.Address.Defs.{
  version_in, yed_version_map, yed_pq_versions, starts_with, checksum4, with_checksum, re_encoded,
  mapped, checked, yed_to_transparent, has_scheme, decode_pq, mapped_pq, yed_pq_to_plain,
}

-- A result behind a check.
behind_check :
    (b : Bool) (x : Option (List ℕ)) (y : List ℕ)
    → (if not b then none else x) ≡ some y
    → (b ≡ true) × (x ≡ some y)
behind_check true x y h = (refl, h)
behind_check false x y h = absurd (none-ne-some y h)

nor_true : (a b : Bool) → (not a || not b) ≡ not (a && b)
nor_true a b = ground arith

module _ (sha256 : List ℕ → List ℕ) (decode : List ℕ → List ℕ) (encode : List ℕ → List ℕ) where
  checked-eq :
      (n : ℕ) (raw : List ℕ)
      → checked sha256 decode encode n raw ≡ true
      → raw ≡ take n raw ++ checksum4 sha256 (take n raw)
  checked-eq n raw h =
      sym (take-append-drop n raw) ∙ ap (λ t. take n raw ++ t) (same_bytes_eq _ _ h)

  -- Version bytes and what follows them, with the first four bytes of the double hash of both.
  abbrev pub summed : ℕ × ℕ → List ℕ → List ℕ
  summed version hash =
      version.0 ∷ version.1 ∷ hash ++ take 4 (sha256 (sha256 (version.0 ∷ version.1 ∷ hash)))

  -- What a well-formed address stands for: known version bytes, `n` bytes and the checksum; and the
  -- result is the base58 form of the version bytes for these, the same bytes and their checksum.
  pub record IsPayload (IsVersion : ℕ × ℕ → ℕ × ℕ → Type 0) (n : ℕ) (addr result : List ℕ)
      : Type 0 where
    pub from : ℕ × ℕ
    pub to : ℕ × ℕ
    pub hash : List ℕ
    pub known : IsVersion from to
    pub size : length hash ≡ n
    pub bytes : decode addr ≡ summed from hash
    pub same : result ≡ encode (summed to hash)

  mapped-IsPayload :
      (versions : List ((ℕ × ℕ) × (ℕ × ℕ))) (IsVersion : ℕ × ℕ → ℕ × ℕ → Type 0) (n : ℕ)
      (addr p result : List ℕ)
      → ((a b : ℕ) (v : ℕ × ℕ) → version_in versions a b ≡ some v → IsVersion (a, b) v)
      → length p ≡ n + 2
      → decode addr ≡ p ++ checksum4 sha256 p
      → mapped sha256 decode encode versions p ≡ some result
      → IsPayload IsVersion n addr result
  mapped-IsPayload versions IsVersion n addr [] result f l d h = absurd (none-ne-some result h)
  mapped-IsPayload versions IsVersion n addr (a ∷ []) result f l d h =
      absurd (none-ne-some result h)
  mapped-IsPayload versions IsVersion n addr (a ∷ b ∷ hash) result f l d h =
      go (version_in versions a b) refl h
    where
      go :
          (o : Option (ℕ × ℕ))
          → version_in versions a b ≡ o
          → re_encoded sha256 decode encode hash o ≡ some result
          → IsPayload IsVersion n addr result
      go none e k = absurd (none-ne-some result k)
      go (some v) e k = record {
        from = (a, b);
        to = v;
        hash = hash;
        known = f a b v e;
        size = omega arith;
        bytes = d ∙ unfold checksum4 in refl;
        same = sym (some-injective _ result k) ∙ unfold with_checksum checksum4 in refl;
      }

  pub yed_to_transparent-IsPayload :
      (addr t : List ℕ)
      → yed_to_transparent sha256 decode encode addr ≡ some t
      → (length addr ≡ 35)
        × (starts_with 121 addr ≡ true)
        × IsPayload IsTransparentVersion 20 addr t
  unfolding yed_to_transparent
  yed_to_transparent-IsPayload addr t h =
      let raw = decode addr in
      let (form, h) = behind_check _ _ t h in
      let (long, h) = behind_check (length raw == 26) _ t h in
      let (sum, h) = behind_check _ _ t h in
      let (l, y) = and_true _ _ form in
      let size : length raw ≡ 26 = (==_iff (length raw) 26).0 long in
      (
        (==_iff (length addr) 35).0 l,
        y,
        mapped-IsPayload yed_version_map IsTransparentVersion 20 addr (take 22 raw) t
            version_in-IsTransparentVersion (length-take 22 raw ∙ omega (arith, size))
            (checked-eq 22 raw sum) h,
      )

  -- The scheme byte in front of the key's hash.
  abbrev pub IsScheme : List ℕ → Type 0
  IsScheme [] = ⊥
  IsScheme (c ∷ hash) = (c ≡ 1) ⊎ (c ≡ 2)

  decode_pq-some :
      (addr : List ℕ) (first : ℕ) (p : List ℕ)
      → decode_pq sha256 decode encode addr first ≡ some p
      → (length addr ≡ 53)
        × (starts_with first addr ≡ true)
        × (length (decode addr) ≡ 39)
        × (decode addr ≡ p ++ checksum4 sha256 p)
        × (has_scheme sha256 decode encode (decode addr) ≡ true)
        × (p ≡ take 35 (decode addr))
  unfolding decode_pq
  decode_pq-some addr first p h =
      let raw = decode addr in
      let (form, h) = behind_check _ _ p h in
      let (long, h) = behind_check (length raw == 39) _ p h in
      let (sums, h) = behind_check _ _ p (
        rw (nor_true (checked sha256 decode encode 35 raw) (has_scheme sha256 decode encode raw)) at
          h) in
      let (sum, scheme) = and_true _ _ sums in
      let (l, y) = and_true _ _ form in
      let e : take 35 raw ≡ p = some-injective _ p h in
      (
        (==_iff (length addr) 53).0 l,
        y,
        (==_iff (length raw) 39).0 long,
        subst (λ x. raw ≡ x ++ checksum4 sha256 x) e (checked-eq 35 raw sum),
        scheme,
        sym e,
      )

  mapped_pq-some :
      (o : Option (List ℕ)) (result : List ℕ)
      → mapped_pq sha256 decode encode o ≡ some result
      → (p : List ℕ) × (o ≡ some p) × (mapped sha256 decode encode yed_pq_versions p ≡ some result)
  mapped_pq-some none result h = absurd (none-ne-some result h)
  mapped_pq-some (some p) result h = (p, refl, h)

  IsScheme-payload :
      (from : ℕ × ℕ) (hash : List ℕ)
      → length hash ≡ 33
      → has_scheme sha256 decode encode (summed from hash) ≡ true
      → IsScheme hash
  IsScheme-payload from [] l h = absurd (omega arith)
  IsScheme-payload from (c ∷ hash) l h = ground arith

  pub yed_pq_to_plain-IsPayload :
      (addr p : List ℕ)
      → yed_pq_to_plain sha256 decode encode addr ≡ some p
      → (length addr ≡ 53)
        × (starts_with 121 addr ≡ true)
        × ((w : IsPayload IsPlainVersion 33 addr p) × IsScheme w.hash)
  unfolding yed_pq_to_plain
  yed_pq_to_plain-IsPayload addr p h =
      let (q, found, mapped_to) = mapped_pq-some (decode_pq sha256 decode encode addr 121) p h in
      let (long, y, size, whole, scheme, front) = decode_pq-some addr 121 q found in
      let w =
        mapped-IsPayload yed_pq_versions IsPlainVersion 33 addr q p version_in-IsPlainVersion
          (ap length front ∙ omega (arith, length-take 35 (decode addr))) whole mapped_to in
      (long, y, (w, IsScheme-payload w.from w.hash w.size (rw w.bytes at scheme)))
