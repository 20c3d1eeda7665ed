-- ===== src/Reverse/Tests.antt =====
-- `Reverse` of an odd number of bytes, and the theorem at it.
use lightwalletd.Common.{[], ◌∷◌, ◌≡◌, refl, length, get_or, arith}
use lightwalletd.Reverse.{reverse_bytes}
use lightwalletd.Reverse.Pointwise.{reverse_bytes_lem}

three : reverse_bytes (1 ∷ 2 ∷ 3 ∷ []) ≡ 3 ∷ 2 ∷ 1 ∷ []
unfolding reverse_bytes
three = refl

reverse_bytes_lem_example :
    (length (reverse_bytes (1 ∷ 2 ∷ 3 ∷ [])) ≡ 3)
    × (get_or (reverse_bytes (1 ∷ 2 ∷ 3 ∷ [])) 0 0 ≡ 3)
reverse_bytes_lem_example = reverse_bytes_lem (1 ∷ 2 ∷ 3 ∷ []) 0 (omega arith)
