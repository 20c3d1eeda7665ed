-- ===== src/Bytestring/Bytes.antt =====
-- What the readers of fixed width take and return: each is local, reads exactly the encodings of
-- its values, and fails without moving when the string is too short.
use lightwalletd.Common.{
  ℕ, ◌*◌, ◌^◌, ◌≤◌, ◌<◌, List, [], ◌++◌, ◌≡◌, sym, ap, ◌∙◌, length, take, drop, append-nil,
  take-append-drop, take_front, drop_front, length-take, length-append, All, IsByte, arith, ok, err,
  le→ltb, lt→ltb,
}
use lightwalletd.Common.Int.{
  IsInt32, IsInt64, to_int32, to_int64, to_uint32, to_uint64, to_uint32-lt, to_uint64-lt,
  to_int32-IsInt32, to_int64-IsInt64, to_int32-to_uint32, to_int64-to_uint64, to_uint32-to_int32,
  to_uint64-to_int64,
}
use mathlib.Core.Path.{subst, subst₂}
use lightwalletd.Scan.{Read, pure, ◌>>=◌}
use lightwalletd.Scan.Local.{
  Reads, IsLocal, pure-IsLocal, >>=-IsLocal, Reads->>=_inv, Reads-map, Reads-pure_inv,
}
use lightwalletd.Scan.Codec.{Codec, map-Codec}
use lightwalletd.Bytestring.Defs.{
  read, read_bytes, le_loop, read_uint16, read_uint32, read_uint64, read_int32, read_int64,
}
use lightwalletd.Bytestring.Words.{
  le_bytes, le_value, length-le_bytes, le_bytes-IsByte, le_loop-eq-value, le_value-le_bytes,
  le_bytes-le_value, le_value-lt,
}

read_enough : (n : ℕ) (s : List ℕ) → n ≤ length s → read n s ≡ (ok (take n s), drop n s)
unfolding read
read_enough n s h = rw (le→ltb (length s) n h)

-- A string that is too short is left as it is.
pub read_short : (n : ℕ) (s : List ℕ) → length s < n → read n s ≡ (err tt, s)
unfolding read
read_short n s h = rw (lt→ltb (length s) n h)

pub Reads-read : (bs : List ℕ) (n : ℕ) → length bs ≡ n → Reads (read n) bs bs
Reads-read bs n e = record { on = λ more. rw (← e) (front more) }
  where
    front : (more : List ℕ) → read (length bs) (bs ++ more) ≡ (ok bs, more)
    front more = read_enough (length bs) (bs ++ more) (omega (arith, length-append bs more)) ∙ λ i.
        (ok (take_front bs more i), drop_front bs more i)

read_took :
    (n : ℕ) (s a rest : List ℕ)
    → read n s ≡ (ok a, rest)
    → (n ≤ length s) × (take n s ≡ a) × (drop n s ≡ rest)
unfolding read
read_took n s a rest h = ground arith

pub read-IsLocal : (n : ℕ) → IsLocal (read n)
read-IsLocal n = record {
  at = λ s a rest h.
      let (f, p, q) = read_took n s a rest h in
      (
        a,
        sym (take-append-drop n s) ∙ (λ i. p i ++ q i),
        Reads-read a n (ap length (sym p) ∙ length-take n s ∙ omega arith),
      );
}

-- What was read is what was taken.
pub Reads-read_inv : (n : ℕ) {used a : List ℕ} → Reads (read n) used a → (used ≡ a) × (length a ≡ n)
Reads-read_inv n {used} {a} h =
    let (f, p, q) = read_took n (used ++ []) a [] (h.on []) in
    (
      sym (append-nil used)
          ∙ sym (take-append-drop n (used ++ []))
          ∙ (λ i. p i ++ q i)
          ∙ append-nil a,
      ap length (sym p) ∙ length-take n (used ++ []) ∙ omega arith,
    )

-- The readers of unsigned words have one shape: `k` bytes, folded into a word of `j` bytes.
unfoldable pub word : ℕ → ℕ → Read ℕ
word j k = read k >>= λ v. pure (le_loop (8 * j) v)

pub word-IsLocal : (j k : ℕ) → IsLocal (word j k)
unfolding word
word-IsLocal j k = >>=-IsLocal (read k) _ (read-IsLocal k) λ v. pure-IsLocal _

Reads-word : (j k v : ℕ) → k ≤ j → v < 256 ^ k → Reads (word j k) (le_bytes k v) v
unfolding word
Reads-word j k v f h =
    subst (λ x. Reads (word j k) (le_bytes k v) x) value
      (Reads-map (read k) (le_loop (8 * j)) (Reads-read (le_bytes k v) k (length-le_bytes k v)))
  where
    value : le_loop (8 * j) (le_bytes k v) ≡ v
    value =
        le_loop-eq-value j _ (le_bytes-IsByte k v) (omega (arith, length-le_bytes k v))
        ∙ le_value-le_bytes k v h

Reads-word_inv :
    (j k : ℕ) {used : List ℕ} {v : ℕ}
    → k ≤ j
    → All IsByte used
    → Reads (word j k) used v
    → (used ≡ le_bytes k v) × (v < 256 ^ k)
unfolding word
Reads-word_inv j k {used} {v} f b h =
    let (x, u, w, e, r, r') = Reads->>=_inv (read k) _ (read-IsLocal k) (λ v. pure-IsLocal _) h in
    let (ux, lx) = Reads-read_inv k r in
    let (we, xe) = Reads-pure_inv r' in
    let whole : used ≡ x = e ∙ (λ i. ux i ++ we i) ∙ append-nil x in
    let bx : All IsByte x = subst (All IsByte) whole b in
    let value : le_value x ≡ v = sym (le_loop-eq-value j x bx (omega arith)) ∙ xe in
    (
      whole ∙ sym (le_bytes-le_value x bx) ∙ (λ i. le_bytes (lx i) (value i)),
      subst₂ (λ y n. y < 256 ^ n) value lx (le_value-lt x bx),
    )

pub word-Codec : (j k : ℕ) → k ≤ j → Codec (word j k) (λ v. v < 256 ^ k) (le_bytes k)
word-Codec j k f = record {
  local = word-IsLocal j k;
  reads = λ v. Reads-word j k v f;
  only = λ used v. Reads-word_inv j k f;
}

pub read_bytes-Codec : (n : ℕ) → Codec (read_bytes n) (λ bs. length bs ≡ n) (λ bs. bs)
unfolding read_bytes
read_bytes-Codec n = record {
  local = read-IsLocal n;
  reads = λ bs e. Reads-read bs n e;
  only = λ used a b h. Reads-read_inv n h;
}

pub read_uint16-Codec : Codec read_uint16 (λ v. v < 2 ^ 16) (le_bytes 2)
unfolding read_uint16 word
read_uint16-Codec = word-Codec 2 2 (omega arith)

pub read_uint32-Codec : Codec read_uint32 (λ v. v < 2 ^ 32) (le_bytes 4)
unfolding read_uint32 word
read_uint32-Codec = word-Codec 4 4 (omega arith)

pub read_uint64-Codec : Codec read_uint64 (λ v. v < 2 ^ 64) (le_bytes 8)
unfolding read_uint64 word
read_uint64-Codec = word-Codec 8 8 (omega arith)

-- The signed readers: the encoding is that of the bit pattern.
pub read_int32-Codec : Codec read_int32 IsInt32 (λ i. le_bytes 4 (to_uint32 i))
unfolding read_int32
read_int32-Codec =
    map-Codec to_int32 to_uint32 IsInt32 read_uint32-Codec
      (λ i h. (to_uint32-lt i, to_int32-to_uint32 i h))
      (λ w h. (to_int32-IsInt32 w h, to_uint32-to_int32 w h))

pub read_int64-Codec : Codec read_int64 IsInt64 (λ i. le_bytes 8 (to_uint64 i))
unfolding read_int64
read_int64-Codec =
    map-Codec to_int64 to_uint64 IsInt64 read_uint64-Codec
      (λ i h. (to_uint64-lt i, to_int64-to_uint64 i h))
      (λ w h. (to_int64-IsInt64 w h, to_uint64-to_int64 w h))
