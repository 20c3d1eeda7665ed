-- ===== src/FirstRpc/Tests.antt =====
-- A node that comes up, or does not, and the theorems at it.
use lightwalletd.Common.{
  ℕ, ◌+◌, ◌*◌, List, [], ◌∷◌, ◌++◌, ◌≡◌, refl, arith, some, ok, err, replicate,
}
use lightwalletd.Common.Text.{codes}
use lightwalletd.FirstRpc.Defs.{reached, ended, first_rpc}
use lightwalletd.FirstRpc.Waits.{failures, first_rpc_waits, first_rpc_gives_up}

abbrev refused : List ℕ
refused = codes "connection refused"

first_rpc_waits_example :
    (slept : ℕ) × (first_rpc 0 0 (failures (refused ∷ refused ∷ []) ++ ok (some refused) ∷ [])
      ≡ (reached, slept))
    × (2 * slept ≡ 5 * (2 * (2 + 5)))
first_rpc_waits_example = first_rpc_waits (refused ∷ refused ∷ []) refused [] (omega arith)

first_rpc_gives_up_example :
    first_rpc 0 0 (failures (replicate 10 refused) ++ err refused ∷ ok (some refused) ∷ [])
    ≡ (ended "unable to issue getblockchaininfo RPC call to zcashd node", 375)
first_rpc_gives_up_example =
    first_rpc_gives_up (replicate 10 refused) refused (ok (some refused) ∷ []) refl
