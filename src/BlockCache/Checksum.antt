-- ===== src/BlockCache/Checksum.antt =====
-- common/cache.go: the checksum in front of each block, FNV-1a of 64 bits (hash/fnv).
use Prim.Native.Nat.{bit_xor}
use lightwalletd.Common.{ℕ, zero, suc, ◌*◌, ◌/◌, ◌%◌, ◌^◌, List, [], ◌∷◌, ◌≡◌, refl, ap, length}
use lightwalletd.Bytestring.Words.{le_bytes}

abbrev pub offset64 : ℕ
offset64 = 14695981039346656037

abbrev pub prime64 : ℕ
prime64 = 1099511628211

-- `Write`: the hash after the bytes.
unfoldable pub fnv_write : ℕ → List ℕ → ℕ
fnv_write h [] = h
fnv_write h (b ∷ bs) = fnv_write (bit_xor h b * prime64 % 2 ^ 64) bs

-- The bytes of a word, the highest first.
unfoldable pub be_bytes : ℕ → ℕ → List ℕ
be_bytes zero v = []
be_bytes (suc n) v = (v / 256 ^ n % 256) ∷ be_bytes n v

unfoldable pub checksum : ℕ → List ℕ → List ℕ
unfolding fnv_write be_bytes
checksum height b = be_bytes 8 (fnv_write (fnv_write offset64 (le_bytes 8 height)) b)

pub length-be_bytes : (n v : ℕ) → length (be_bytes n v) ≡ n
unfolding be_bytes
length-be_bytes zero v = refl
length-be_bytes (suc n) v = ap suc (length-be_bytes n v)

pub length-checksum : (height : ℕ) (b : List ℕ) → length (checksum height b) ≡ 8
unfolding checksum
length-checksum height b = length-be_bytes 8 (fnv_write (fnv_write offset64 (le_bytes 8 height)) b)
