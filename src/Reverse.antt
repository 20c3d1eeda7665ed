-- ===== src/Reverse.antt =====
-- parser/util.go: `Reverse`, a new slice with the bytes in the opposite order.
pub mod Pointwise
mod Tests
use lightwalletd.Common.{
  ℕ, zero, suc, ◌+◌, ◌-◌, List, length, replicate, leb, if◌then◌else◌, set, get_or,
}

-- The loop from both ends: `left <= right` goes on, with `right` one past its value in Go so that
-- it is never negative. The fuel is `len(a)`; each round moves both ends.
unfoldable pub reverse_loop : ℕ → List ℕ → List ℕ → ℕ → ℕ → List ℕ
reverse_loop zero a r left right = r
reverse_loop (suc fuel) a r left right =
    let r' = set (set r left (get_or a (right - 1) 0)) (right - 1) (get_or a left 0) in
    let rest = reverse_loop fuel a r' (left + 1) (right - 1) in
    if leb (left + 1) right then rest else r

unfoldable pub reverse_bytes : List ℕ → List ℕ
unfolding reverse_loop
reverse_bytes a = reverse_loop (length a) a (replicate (length a) 0) 0 (length a)
