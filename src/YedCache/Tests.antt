-- ===== src/YedCache/Tests.antt =====
-- A small map of answers, and the theorem at it.
use lightwalletd.Common.{[], ◌∷◌, ◌≡◌, refl, some, arith}
use lightwalletd.Common.Text.{codes}
use lightwalletd.YedCache.Defs.{YedLru, lru_put}
use lightwalletd.YedCache.Put.{IsPut, lru_put-IsPut}

-- Room for two answers and ten bytes; one of four bytes is in.
abbrev one_answer : YedLru
one_answer = record {
  max_entries = 2;
  max_bytes = 10;
  bytes = 4;
  order = record { key = codes "a"; raw = codes "1234" } ∷ [];
}

-- An answer of eight bytes evicts it.
evicts :
    lru_put one_answer (codes "b") (codes "12345678")
    ≡ some (record one_answer {
      bytes = 8;
      order = record { key = codes "b"; raw = codes "12345678" } ∷ [];
    })
unfolding lru_put
evicts = refl

lru_put-IsPut_example :
    (c' : YedLru) × (lru_put one_answer (codes "b") (codes "12345") ≡ some c')
    × IsPut one_answer (codes "b") (codes "12345") c'
lru_put-IsPut_example =
    lru_put-IsPut one_answer (codes "b") (codes "12345")
      (record { counted = refl; few = omega arith; small = omega arith }) (omega arith)
