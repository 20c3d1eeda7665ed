-- ===== src/Bytestring/Defs.antt =====
-- parser/internal/bytestring/bytestring.go: the reading methods of `bytestring.String`.
-- A `String` is a list of byte values. A method is a scanner: it returns the value of its `out`
-- argument, or fails, beside the string that is left. An `out` argument is not written on failure,
-- but for `ReadCompactSize` and `ReadScriptInt64`, which set theirs to 0 first. An `int` that
-- counts bytes is a natural number: the callers pass constants and sizes that were read.

use lightwalletd.Common.{
  ℕ, ◌-◌, ◌*◌, ◌%◌, ◌^◌, List, ◌++◌, [], ◌∷◌, Bool, true, false, not, ◌&&◌, ◌||◌, ok, err, ltb, leb,
  ◌==◌, if◌then◌else◌, length, take, drop, min, bit_or,
}
use lightwalletd.Common.Int.{ℤ, negsuc, to_int32, to_int64}
use lightwalletd.Scan.{Read, pure, fail, ◌>>=◌}

abbrev pub max_compact_size : ℕ
max_compact_size = 0x02000000

abbrev op0 : ℕ
op0 = 0x00

abbrev op1_negate : ℕ
op1_negate = 0x4f

abbrev op1 : ℕ
op1 = 0x51

abbrev op16 : ℕ
op16 = 0x60

-- `len(*s) < n` fails and moves nothing.
unfoldable pub read : ℕ → Read (List ℕ)
read n s = if ltb (length s) n then (err tt, s) else (ok (take n s), drop n s)

unfoldable pub empty : List ℕ → Bool
empty s = length s == 0

-- The Boolean result, and the string that is left.
unfoldable pub skip : ℕ → List ℕ → Bool × List ℕ
skip n s = if ltb (length s) n then (false, s) else (true, drop n s)

-- `Read` of io.Reader. The result is (n, the error is io.EOF, the buffer, the string that is left).
unfoldable pub read_into : List ℕ → List ℕ → ℕ × Bool × List ℕ × List ℕ
unfolding empty skip
read_into p s =
    if empty s
    then (0, not (length p == 0), p, s)
    else let n = min (length p) (length s) in (n, false, take n s ++ drop n p, (skip n s).1)

-- `v[0]` of what `read(1)` returned, which is never empty.
abbrev pub first_byte : List ℕ → ℕ
first_byte [] = 0
first_byte (b ∷ bs) = b

unfoldable pub read_byte : Read ℕ
unfolding read
read_byte = do v ← read 1; pure (first_byte v)

unfoldable pub read_bytes : ℕ → Read (List ℕ)
unfolding read
read_bytes n = read n

-- `for i := n - 1; i >= 0; i-- { out <<= 8; out |= v[i] }` on a `w`-bit word that starts at 0: the
-- bytes behind the first have been folded in when the first is.
unfoldable pub le_loop : ℕ → List ℕ → ℕ
le_loop w [] = 0
le_loop w (b ∷ bs) = bit_or (le_loop w bs * 256 % 2 ^ w) b

-- The `switch` on the first byte: (length, lenLen, minSize).
unfoldable pub compact_form : ℕ → Read (ℕ × ℕ × ℕ)
compact_form len_byte =
    if ltb len_byte 253
    then pure (len_byte, 0, 0)
    else if len_byte == 253
    then pure (0, 2, 253)
    else if len_byte == 254
    then pure (0, 4, 0x10000)
    else fail tt

-- `if lenLen > 0 { … }`
unfoldable pub compact_tail : ℕ → ℕ → Read ℕ
unfolding read le_loop
compact_tail length len_len =
    if ltb 0 len_len
    then (do len_bytes ← read len_len; pure (le_loop 64 len_bytes))
    else pure length

-- What follows the read of the first byte.
unfoldable pub compact_body : ℕ → Read ℕ
unfolding compact_form compact_tail
compact_body len_byte = do
  (length, len_len, min_size) ← compact_form len_byte
  length ← compact_tail length len_len
  if ltb max_compact_size length || ltb length min_size then fail tt else pure length

unfoldable pub read_compact_size : Read ℕ
unfolding read compact_body
read_compact_size = do len_bytes ← read 1; compact_body (first_byte len_bytes)

unfoldable pub read_compact_length_prefixed : Read (List ℕ)
unfolding read_compact_size read
read_compact_length_prefixed = do length ← read_compact_size; read length

unfoldable pub read_uint16 : Read ℕ
unfolding read le_loop
read_uint16 = do v ← read 2; pure (le_loop 16 v)

unfoldable pub read_uint32 : Read ℕ
unfolding read le_loop
read_uint32 = do v ← read 4; pure (le_loop 32 v)

unfoldable pub read_uint64 : Read ℕ
unfolding read le_loop
read_uint64 = do v ← read 8; pure (le_loop 64 v)

unfoldable pub read_int32 : Read ℤ
unfolding read_uint32
read_int32 = do tmp ← read_uint32; pure (to_int32 tmp)

unfoldable pub read_int64 : Read ℤ
unfolding read_uint64
read_int64 = do tmp ← read_uint64; pure (to_int64 tmp)

-- The branches on the first byte. A length byte takes the little-endian number behind it, whose
-- bytes past the eighth are shifted out.
unfoldable pub script_number : ℕ → Read ℤ
unfolding read le_loop
script_number b =
    if b == op1_negate
    then pure (negsuc 0)
    else if b == op0
    then pure (to_int64 0)
    else if leb op1 b && leb b op16
    then pure (to_int64 (b - (op1 - 1)))
    else do num_bytes ← read b; pure (to_int64 (le_loop 64 num_bytes))

unfoldable pub read_script_int64 : Read ℤ
unfolding read script_number
read_script_int64 = do first_bytes ← read 1; script_number (first_byte first_bytes)
