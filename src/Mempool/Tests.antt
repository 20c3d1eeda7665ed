-- ===== src/Mempool/Tests.antt =====
-- A small mempool, and the theorem at it.
use lightwalletd.Common.{ℕ, List, [], ◌∷◌, ◌≡◌, refl}
use lightwalletd.Common.Text.{codes}
use lightwalletd.Mempool.Defs.{mempool_filter, sorted}
use lightwalletd.Mempool.Filter.{filter_by, is_sent, mempool_filter_lem}

abbrev items : List (List ℕ)
items = codes "bbb" ∷ codes "abc" ∷ codes "cc1" ∷ codes "cc2" ∷ []

abbrev exclude : List (List ℕ)
exclude = codes "cc" ∷ codes "ab" ∷ codes "zz" ∷ []

-- One item matches `ab` and is left out; two match `cc`, and both are sent.
sends_three : mempool_filter items exclude ≡ codes "bbb" ∷ codes "cc1" ∷ codes "cc2" ∷ []
unfolding mempool_filter
sends_three = refl

mempool_filter_lem_example :
    mempool_filter items exclude
    ≡ filter_by (is_sent (sorted exclude) (sorted items)) (sorted items)
mempool_filter_lem_example = mempool_filter_lem items exclude
