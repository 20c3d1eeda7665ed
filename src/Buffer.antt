-- ===== src/Buffer.antt =====
-- The `bytes.Buffer` of `MarshalBinary`, made over `backing := make([]byte, 0, headerSize)`: a
-- write that fits the capacity lands in `backing` too; the first that does not moves the buffer to
-- a new array, and `backing` keeps what it had. `binary.Write` makes one such write.
use lightwalletd.Common.{
  ℕ, ◌-◌, ◌≤◌, List, [], ◌++◌, ◌≡◌, refl, leb, if◌then◌else◌, length, length-append, replicate,
  take_front, take, arith,
}

pub record Buffer : Type 0 where
  pub capacity : ℕ
  pub written : List ℕ
  pub backing : List ℕ

unfoldable pub new_buffer : ℕ → Buffer
new_buffer capacity = record { capacity = capacity; written = []; backing = [] }

unfoldable pub write : Buffer → List ℕ → Buffer
write buf chunk =
    let written = buf.written ++ chunk in
    record buf {
      written = written;
      backing = if leb (length written) buf.capacity then written else buf.backing;
    }

-- `backing[:n]`: the bytes that no write reached are 0.
unfoldable pub slice_backing : ℕ → Buffer → List ℕ
slice_backing n buf = take n (buf.backing ++ replicate (n - length buf.backing) 0)

-- A buffer made for `n` bytes that holds `bytes`; all of them are in `backing`, so long as they fit.
pub record IsWhole (n : ℕ) (buf : Buffer) (bytes : List ℕ) : Type 0 where
  pub room : buf.capacity ≡ n
  pub all : buf.written ≡ bytes
  pub kept : length bytes ≤ n → buf.backing ≡ bytes

pub new_buffer-IsWhole : (n : ℕ) → IsWhole n (new_buffer n) []
unfolding new_buffer
new_buffer-IsWhole n = record { room = refl; all = refl; kept = λ h. refl }

pub write-IsWhole :
    {n : ℕ} {buf : Buffer} {bytes : List ℕ} (chunk : List ℕ)
    → IsWhole n buf bytes
    → IsWhole n (write buf chunk) (bytes ++ chunk)
unfolding write
write-IsWhole {n} {buf} {bytes} chunk h = record {
  room = h.room;
  all = λ i. h.all i ++ chunk;
  kept = λ f. ground (arith, length-append bytes chunk);
}

-- Once a buffer holds as much as it was made for, the slice is what was written.
pub slice_backing-IsWhole :
    {n : ℕ} {buf : Buffer} {bytes : List ℕ}
    → IsWhole n buf bytes
    → length bytes ≡ n
    → slice_backing n buf ≡ bytes
unfolding slice_backing
slice_backing-IsWhole {n} {buf} {bytes} h e = rw (h.kept (omega arith), ← e) (take_front bytes _)
