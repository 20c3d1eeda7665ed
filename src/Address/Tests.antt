-- ===== src/Address/Tests.antt =====
-- Two addresses, and the theorems at them.
use lightwalletd.Common.{
  ℕ, List, ◌∷◌, ◌++◌, ◌≡◌, ◌↔◌, refl, sym, arith, true, inl, inr, Bool-cases, some, ◌==◌,
  if◌then◌else◌, length, replicate,
}
use lightwalletd.BlockCache.{same_bytes}
use lightwalletd.BlockCache.Holds.{same_bytes_eq}
use lightwalletd.Address.Defs.{
  starts_with, yed_to_transparent, yed_pq_to_plain, is_plain_pq_address, check_taddress, taddr_of,
  with_checksum,
}
use lightwalletd.Address.Versions.{IsTransparentVersion, IsPlainVersion}
use lightwalletd.Address.Payload.{IsPayload, IsScheme}
use lightwalletd.Address.Converted.{yed_to_transparent_converts, yed_pq_to_plain_converts}
use lightwalletd.Address.Accepted.{yed_pq_to_plain_accepted}

-- Every hash is made of 32 bytes 7.
abbrev sevens : List ℕ → List ℕ
sevens bs = replicate 32 7

abbrev yed_address : List ℕ
yed_address = 121 ∷ replicate 34 50

abbrev yed_pq_address : List ℕ
yed_pq_address = 121 ∷ replicate 52 50

abbrev plain_address : List ℕ
plain_address = 116 ∷ replicate 52 50

abbrev plain_raw : List ℕ
plain_raw = 0x4F ∷ 0x61 ∷ 1 ∷ replicate 32 9 ++ replicate 4 7

-- What base58 does to these.
abbrev decode : List ℕ → List ℕ
decode addr =
    if length addr == 35
    then 0x1F ∷ 0xDD ∷ replicate 20 9 ++ replicate 4 7
    else if starts_with 121 addr
    then 0x57 ∷ 0x1E ∷ 1 ∷ replicate 32 9 ++ replicate 4 7
    else plain_raw

abbrev encode : List ℕ → List ℕ
encode payload = if same_bytes payload plain_raw then plain_address else 115 ∷ replicate 34 50

transparent : yed_to_transparent sevens decode encode yed_address ≡ some (115 ∷ replicate 34 50)
unfolding yed_to_transparent
transparent = refl

yed_to_transparent_converts_example :
    (yed_to_transparent sevens decode encode yed_address ≡ some (115 ∷ replicate 34 50)) ↔ (
      (length yed_address ≡ 35)
      × (starts_with 121 yed_address ≡ true)
      × IsPayload sevens decode encode IsTransparentVersion 20 yed_address (115 ∷ replicate 34 50))
yed_to_transparent_converts_example =
    yed_to_transparent_converts sevens decode encode (λ x. refl) yed_address (115 ∷ replicate 34 50)

plain : yed_pq_to_plain sevens decode encode yed_pq_address ≡ some plain_address
unfolding yed_pq_to_plain with_checksum
plain = refl

yed_pq_to_plain_converts_example :
    (yed_pq_to_plain sevens decode encode yed_pq_address ≡ some plain_address) ↔ (
      (length yed_pq_address ≡ 53)
      × (starts_with 121 yed_pq_address ≡ true)
      × ((w : IsPayload sevens decode encode IsPlainVersion 33 yed_pq_address plain_address)
          × IsScheme sevens decode encode w.hash))
yed_pq_to_plain_converts_example =
    yed_pq_to_plain_converts sevens decode encode (λ x. refl) yed_pq_address plain_address

decodes_back : (payload : List ℕ) → plain_address ≡ encode payload → decode plain_address ≡ payload
decodes_back payload e = elim (Bool-cases (same_bytes payload plain_raw)) [
  | inl same ↦ sym (same_bytes_eq payload plain_raw same)
  | inr other ↦
      absurd (let e' : plain_address ≡ 115 ∷ replicate 34 50 = rw other at e in ground arith)
]

yed_pq_to_plain_accepted_example :
    (is_plain_pq_address sevens decode encode plain_address ≡ true)
    × (check_taddress sevens decode encode plain_address ≡ true)
yed_pq_to_plain_accepted_example =
    yed_pq_to_plain_accepted sevens decode encode yed_pq_address plain_address plain (λ x. refl)
      decodes_back refl (inr (inl refl))

-- With the service on, the node is asked for the plain form.
asks_for_plain : taddr_of sevens decode encode true yed_pq_address ≡ plain_address
unfolding taddr_of with_checksum
asks_for_plain = refl
