-- ===== src/Address/Accepted.antt =====
-- A post-quantum YED address is accepted, as the plain address of the same hash.
use lightwalletd.Common.{
  ℕ, List, [], ◌∷◌, ◌≡◌, refl, ap, ◌∙◌, arith, Bool, true, false, not, ◌||◌, ◌⊎◌, some, ◌==◌,
  ==_iff, if◌then◌else◌, length,
}
use lightwalletd.Address.Defs.{
  plain_pq_versions, has_version, decode_pq, yed_pq_to_plain, has_plain_version, is_plain_first,
  is_plain_pq_address, check_taddress,
}
use lightwalletd.Address.Versions.{has_version-plain}
use lightwalletd.Address.Payload.{yed_pq_to_plain-IsPayload}
use lightwalletd.Address.Converted.{decode_pq-payload}

-- The first characters of the plain forms: `s`, `t` and `r`.
abbrev pub IsPlainFirst : List ℕ → Type 0
IsPlainFirst [] = ⊥
IsPlainFirst (c ∷ p) = (c ≡ 115) ⊎ ((c ≡ 116) ⊎ (c ≡ 114))

module _ (sha256 : List ℕ → List ℕ) (decode : List ℕ → List ℕ) (encode : List ℕ → List ℕ) where
  is_plain_first-payload :
      (c : ℕ) (p : List ℕ) (to : ℕ × ℕ) (hash : List ℕ)
      → IsPlainFirst (c ∷ p)
      → has_version plain_pq_versions to.0 to.1 ≡ true
      → decode_pq sha256 decode encode (c ∷ p) c ≡ some (to.0 ∷ to.1 ∷ hash)
      → is_plain_first sha256 decode encode (c ∷ p) ≡ true
  is_plain_first-payload c p to hash f v d =
      let is_first : (c == 115 || c == 116 || c == 114) ≡ true = ground arith in
      rw is_first (ap (has_plain_version sha256 decode encode) d ∙ v)

  plain_form : (b : Bool) (x : Bool) → b ≡ true → x ≡ true → (if not b then false else x) ≡ true
  plain_form b x h k = ground arith

  -- The plain form of a post-quantum YED address passes as a plain post-quantum address, and so passes
  -- the check of addresses, if SHA-256 gives 32 bytes and the base58 library decodes that form to the
  -- payload that it was made from and makes it 53 characters long with a first character `s`, `t` or
  -- `r`.
  pub yed_pq_to_plain_accepted :
      (addr p : List ℕ)
      → yed_pq_to_plain sha256 decode encode addr ≡ some p
      → ((x : List ℕ) → length (sha256 x) ≡ 32)
      → ((payload : List ℕ) → p ≡ encode payload → decode p ≡ payload)
      → length p ≡ 53
      → IsPlainFirst p
      → (is_plain_pq_address sha256 decode encode p ≡ true)
        × (check_taddress sha256 decode encode p ≡ true)
  unfolding check_taddress
  yed_pq_to_plain_accepted addr [] h k back long f = absurd f
  yed_pq_to_plain_accepted addr (c ∷ p) h k back long f =
      let (l, y, ws) = yed_pq_to_plain-IsPayload sha256 decode encode addr (c ∷ p) h in
      let (w, scheme) = ws in
      let same : (c == c) ≡ true = ground arith in
      let plain : is_plain_pq_address sha256 decode encode (c ∷ p) ≡ true =
        unfold is_plain_pq_address in
        plain_form (length (c ∷ p) == 53) (is_plain_first sha256 decode encode (c ∷ p))
          ((==_iff (length (c ∷ p)) 53).1 long)
          (is_plain_first-payload c p w.to w.hash f (has_version-plain w.from w.to w.known) (
            decode_pq-payload sha256 decode encode (c ∷ p) c w.to w.hash k long same w.size scheme
              (back _ w.same))) in
      (plain, rw plain refl)
