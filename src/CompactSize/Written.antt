-- ===== src/CompactSize/Written.antt =====
-- The writers write the encoding, and the size that is computed beforehand is its length.
use lightwalletd.Common.{
  ℕ, ◌+◌, ◌%◌, List, [], ◌∷◌, ◌++◌, ◌≡◌, append_assoc, ltb, leb, length, arith, Bool-cases, inl,
  inr, true,
}
use mathlib.Core.Path.{subst}
use lightwalletd.Buffer.{Buffer, IsWhole, write, write-IsWhole}
use lightwalletd.Bytestring.Words.{length-le_bytes}
use lightwalletd.CompactSize.Defs.{
  compact_size, compact_length_prefixed_len, write_compact_length_prefixed_len,
  write_compact_length_prefixed,
}

write_twice :
    {size : ℕ} {buf : Buffer} {bytes : List ℕ} (b : ℕ) (chunk : List ℕ)
    → IsWhole size buf bytes
    → IsWhole size (write (write buf (b ∷ [])) chunk) (bytes ++ b ∷ chunk)
write_twice {size} {buf} {bytes} b chunk h =
    subst (IsWhole _ _) (append_assoc bytes (b ∷ []) chunk)
      (write-IsWhole chunk (write-IsWhole (b ∷ []) h))

low_byte : (n : ℕ) → ltb n 253 ≡ true → n % 256 ≡ n
low_byte n h = ground arith

pub write_compact_length_prefixed_len-IsWhole :
    {size : ℕ} {buf : Buffer} {bytes : List ℕ} (n : ℕ)
    → IsWhole size buf bytes
    → IsWhole size (write_compact_length_prefixed_len buf n) (bytes ++ compact_size n)
write_compact_length_prefixed_len-IsWhole {size} {buf} {bytes} n h = elim (Bool-cases (ltb n 253)) [
  | inl a ↦
      unfold write_compact_length_prefixed_len compact_size in
      rw (a, low_byte n a) (write-IsWhole (n ∷ []) h)
  | inr a ↦ elim (Bool-cases (leb n 0xffff)) [
    | inl b ↦
        unfold write_compact_length_prefixed_len compact_size in rw (a, b) (write_twice 253 _ h)
    | inr b ↦ elim (Bool-cases (leb n 0xffffffff)) [
      | inl c ↦
          unfold write_compact_length_prefixed_len compact_size in
          rw (a, b, c) (write_twice 254 _ h)
      | inr c ↦
          unfold write_compact_length_prefixed_len compact_size in
          rw (a, b, c) (write_twice 255 _ h)
    ]
  ]
]

pub length-compact_size : (n : ℕ) → compact_length_prefixed_len n ≡ length (compact_size n) + n
unfolding compact_length_prefixed_len compact_size
length-compact_size n =
    ground (arith, length-le_bytes 2 n, length-le_bytes 4 n, length-le_bytes 8 n)

pub write_compact_length_prefixed-IsWhole :
    {size : ℕ} {buf : Buffer} {bytes : List ℕ} (val : List ℕ)
    → IsWhole size buf bytes
    → IsWhole size
        (write_compact_length_prefixed buf val)
        (bytes ++ compact_size (length val) ++ val)
unfolding write_compact_length_prefixed
write_compact_length_prefixed-IsWhole val h =
    write-IsWhole val (write_compact_length_prefixed_len-IsWhole (length val) h)
