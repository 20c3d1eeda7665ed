-- ===== src/Address/Defs.antt =====
-- frontend/yellowback_addr.go; `taddrOf` and `checkTaddress` of frontend/service.go. Strings are lists
-- of bytes. SHA-256 and the two functions of the base58 library are parameters.
use lightwalletd.Common.{
  ℕ, List, [], ◌∷◌, ◌++◌, Bool, true, false, not, ◌&&◌, ◌||◌, Option, none, some, leb, ◌==◌,
  if◌then◌else◌, length, take, drop,
}
use lightwalletd.BlockCache.{same_bytes}

-- The entry of a map from version bytes to version bytes.
abbrev pub version_in : List ((ℕ × ℕ) × (ℕ × ℕ)) → ℕ → ℕ → Option (ℕ × ℕ)
version_in [] a b = none
version_in ((k, v) ∷ versions) a b =
    let rest = version_in versions a b in if k.0 == a && k.1 == b then some v else rest

abbrev pub yed_version_map : List ((ℕ × ℕ) × (ℕ × ℕ))
yed_version_map =
    ((0x1F, 0xDD), (0x1C, 0x28)) ∷ ((0x20, 0x07), (0x1C, 0x95)) ∷ ((0x20, 0x02), (0x1C, 0x95)) ∷ []

abbrev pub yed_pq_versions : List ((ℕ × ℕ) × (ℕ × ℕ))
yed_pq_versions =
    ((0x56, 0xAB), (0x4D, 0xD9)) ∷ ((0x57, 0x1E), (0x4F, 0x61)) ∷ ((0x57, 0x10), (0x4C, 0x51)) ∷ []

abbrev pub plain_pq_versions : List (ℕ × ℕ)
plain_pq_versions = (0x4D, 0xD9) ∷ (0x4F, 0x61) ∷ (0x4C, 0x51) ∷ []

abbrev pub has_version : List (ℕ × ℕ) → ℕ → ℕ → Bool
has_version [] a b = false
has_version (v ∷ versions) a b = let rest = has_version versions a b in v.0 == a && v.1 == b || rest

abbrev pub yed_address_len : ℕ
yed_address_len = 35

abbrev pub yed_pq_address_len : ℕ
yed_pq_address_len = 53

-- `addr[0] == c`, on an address that is not empty.
abbrev pub starts_with : ℕ → List ℕ → Bool
starts_with c [] = false
starts_with c (d ∷ addr) = d == c

module _ (sha256 : List ℕ → List ℕ) where
  unfoldable pub checksum4 : List ℕ → List ℕ
  checksum4 b = take 4 (sha256 (sha256 b))

  -- The version bytes, the rest, and the checksum of both.
  unfoldable pub with_checksum : ℕ × ℕ → List ℕ → List ℕ
  unfolding checksum4
  with_checksum (a, b) hash = let payload = a ∷ b ∷ hash in payload ++ checksum4 payload

  module _ (decode : List ℕ → List ℕ) (encode : List ℕ → List ℕ) where
    abbrev pub re_encoded : List ℕ → Option (ℕ × ℕ) → Option (List ℕ)
    re_encoded hash none = none
    re_encoded hash (some version) = some (encode (with_checksum version hash))

    -- What follows the checks: the version bytes are mapped.
    abbrev pub mapped : List ((ℕ × ℕ) × (ℕ × ℕ)) → List ℕ → Option (List ℕ)
    mapped versions [] = none
    mapped versions (a ∷ []) = none
    mapped versions (a ∷ b ∷ hash) = re_encoded hash (version_in versions a b)

    -- `raw[22:]` is the checksum of `raw[:22]`.
    abbrev pub checked : ℕ → List ℕ → Bool
    checked n raw = same_bytes (drop n raw) (checksum4 (take n raw))

    -- The transparent form, or none for `("", false)`.
    unfoldable pub yed_to_transparent : List ℕ → Option (List ℕ)
    unfolding with_checksum
    yed_to_transparent addr =
        let raw = decode addr in
        if not (length addr == yed_address_len && starts_with 121 addr)
        then none
        else if not (length raw == 26)
        then none
        else if not (checked 22 raw)
        then none
        else mapped yed_version_map (take 22 raw)

    abbrev pub has_scheme : List ℕ → Bool
    has_scheme (a ∷ b ∷ c ∷ raw) = c == 1 || c == 2
    has_scheme raw = false

    -- The payload, or none for nil.
    unfoldable pub decode_pq : List ℕ → ℕ → Option (List ℕ)
    unfolding checksum4
    decode_pq addr first =
        let raw = decode addr in
        if not (length addr == yed_pq_address_len && starts_with first addr)
        then none
        else if not (length raw == 39)
        then none
        else if not (checked 35 raw) || not (has_scheme raw)
        then none
        else some (take 35 raw)

    abbrev pub mapped_pq : Option (List ℕ) → Option (List ℕ)
    mapped_pq none = none
    mapped_pq (some p) = mapped yed_pq_versions p

    unfoldable pub yed_pq_to_plain : List ℕ → Option (List ℕ)
    unfolding decode_pq
    yed_pq_to_plain addr = mapped_pq (decode_pq addr 121)

    abbrev pub is_some_of : Option (List ℕ) → Bool
    is_some_of none = false
    is_some_of (some p) = true

    unfoldable pub is_yed_pq_address : List ℕ → Bool
    unfolding yed_pq_to_plain
    is_yed_pq_address addr = is_some_of (yed_pq_to_plain addr)

    abbrev pub has_plain_version : Option (List ℕ) → Bool
    has_plain_version none = false
    has_plain_version (some []) = false
    has_plain_version (some (a ∷ [])) = false
    has_plain_version (some (a ∷ b ∷ p)) = has_version plain_pq_versions a b

    -- `switch addr[0] { case 's', 't', 'r': … }`
    abbrev pub is_plain_first : List ℕ → Bool
    is_plain_first [] = false
    is_plain_first (c ∷ addr) =
        if c == 115 || c == 116 || c == 114
        then has_plain_version (decode_pq (c ∷ addr) c)
        else false

    unfoldable pub is_plain_pq_address : List ℕ → Bool
    unfolding decode_pq
    is_plain_pq_address addr =
        if not (length addr == yed_pq_address_len) then false else is_plain_first addr

    -- `[a-zA-Z0-9]`
    abbrev pub is_alphanumeric : ℕ → Bool
    is_alphanumeric c = leb 97 c && leb c 122 || leb 65 c && leb c 90 || leb 48 c && leb c 57

    abbrev pub all_alphanumeric : List ℕ → Bool
    all_alphanumeric [] = true
    all_alphanumeric (c ∷ cs) = let rest = all_alphanumeric cs in is_alphanumeric c && rest

    -- `\As[a-zA-Z0-9]{34}\z`
    abbrev pub is_taddress : List ℕ → Bool
    is_taddress [] = false
    is_taddress (c ∷ cs) = c == 115 && length cs == 34 && all_alphanumeric cs

    -- Whether the error is nil.
    unfoldable pub check_taddress : List ℕ → Bool
    unfolding is_plain_pq_address
    check_taddress taddr = if is_plain_pq_address taddr then true else is_taddress taddr

    abbrev pub first_of : Option (List ℕ) → List ℕ → List ℕ
    first_of none addr = addr
    first_of (some a) addr = a

    -- The error that is returned beside it is always nil.
    unfoldable pub taddr_of : Bool → List ℕ → List ℕ
    unfolding yed_to_transparent yed_pq_to_plain
    taddr_of yellowback_addresses addr =
        if yellowback_addresses
        then first_of (yed_to_transparent addr) (first_of (yed_pq_to_plain addr) addr)
        else addr
