-- ===== src/CompactSize/Defs.antt =====
-- The CompactSize writers of parser/block_header.go.
use lightwalletd.Common.{ℕ, ◌+◌, List, [], ◌∷◌, ltb, leb, if◌then◌else◌, length}
use lightwalletd.Bytestring.Words.{le_bytes}
use lightwalletd.Buffer.{Buffer, write}

unfoldable pub compact_length_prefixed_len : ℕ → ℕ
compact_length_prefixed_len length =
    if ltb length 253
    then 1 + length
    else if leb length 0xffff
    then 1 + 2 + length
    else if leb length 0xffffffff
    then 1 + 4 + length
    else 1 + 8 + length

-- A byte on its own is one `binary.Write`, and so is the word behind it.
unfoldable pub write_compact_length_prefixed_len : Buffer → ℕ → Buffer
unfolding write le_bytes
write_compact_length_prefixed_len buf length =
    if ltb length 253
    then write buf (le_bytes 1 length)
    else if leb length 0xffff
    then write (write buf (253 ∷ [])) (le_bytes 2 length)
    else if leb length 0xffffffff
    then write (write buf (254 ∷ [])) (le_bytes 4 length)
    else write (write buf (255 ∷ [])) (le_bytes 8 length)

unfoldable pub write_compact_length_prefixed : Buffer → List ℕ → Buffer
unfolding write_compact_length_prefixed_len write
write_compact_length_prefixed buf val =
    write (write_compact_length_prefixed_len buf (length val)) val

-- The CompactSize encoding of a number, as the format defines it: its first byte, and the rest.
abbrev pub lead : ℕ → ℕ
lead n =
    if ltb n 253 then n else if leb n 0xffff then 253 else if leb n 0xffffffff then 254 else 255

abbrev pub trail : ℕ → List ℕ
trail n =
    if ltb n 253
    then []
    else if leb n 0xffff
    then le_bytes 2 n
    else if leb n 0xffffffff
    then le_bytes 4 n
    else le_bytes 8 n

unfoldable pub compact_size : ℕ → List ℕ
compact_size n = lead n ∷ trail n
