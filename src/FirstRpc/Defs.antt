-- ===== src/FirstRpc/Defs.antt =====
-- common/common.go: `FirstRPC`. The replies of the node in their order: an error's text, or the
-- result, if it could be decoded.
use lightwalletd.Common.{
  ℕ, ◌+◌, ◌*◌, List, [], ◌∷◌, Option, none, some, Result, ok, err, String, ltb, if◌then◌else◌,
}

-- The call is still retried, or the server goes on, or the process has ended.
pub data Start : Type 0 where
  waiting : Start
  reached : Start
  ended : String → Start

module _ {Info : Type 0} where
  -- `retryCount` and the seconds slept so far; at the end, the seconds slept.
  unfoldable pub first_rpc : ℕ → ℕ → List (Result (List ℕ) (Option Info)) → Start × ℕ
  first_rpc retry_count slept [] = (waiting, slept)
  first_rpc retry_count slept (ok none ∷ replies) =
      (ended "error parsing JSON getblockchaininfo response", slept)
  first_rpc retry_count slept (ok (some info) ∷ replies) = (reached, slept)
  first_rpc retry_count slept (err e ∷ replies) =
      let next = first_rpc (retry_count + 1) (slept + (10 + (retry_count + 1) * 5)) replies in
      if ltb 10 (retry_count + 1)
      then (ended "unable to issue getblockchaininfo RPC call to zcashd node", slept)
      else next
