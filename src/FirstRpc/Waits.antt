-- ===== src/FirstRpc/Waits.antt =====
-- How long `FirstRPC` waits for the node, and when it gives up.
use lightwalletd.Common.{
  ℕ, zero, suc, ◌+◌, ◌*◌, ◌≤◌, List, [], ◌∷◌, ◌++◌, ◌≡◌, refl, ap, ◌∙◌, arith, Option, some, Result,
  ok, err, length, le→ltb,
}
use lightwalletd.FirstRpc.Defs.{reached, ended, first_rpc}

-- The seconds that `k` failures behind the first `r` cost.
abbrev pub delay : ℕ → ℕ → ℕ
delay r zero = 0
delay r (suc k) = (10 + (r + 1) * 5) + delay (r + 1) k

delay_lem : (k r : ℕ) → 2 * delay r k ≡ 5 * (k * (k + 5)) + 10 * (r * k)
delay_lem zero r = omega arith
delay_lem (suc k) r = omega (arith, delay_lem k (r + 1))

module _ {Info : Type 0} where
  -- Failures, with the texts of their errors.
  abbrev pub failures : List (List ℕ) → List (Result (List ℕ) (Option Info))
  failures [] = []
  failures (e ∷ es) = err e ∷ failures es

  after_failures :
      (r slept r' slept' : ℕ) (es : List (List ℕ)) (more : List (Result (List ℕ) (Option Info)))
      → r + length es ≡ r'
      → r' ≤ 10
      → slept + delay r (length es) ≡ slept'
      → first_rpc r slept (failures es ++ more) ≡ first_rpc r' slept' more
  unfolding first_rpc
  after_failures r slept r' slept' [] more e h d =
      let p : r ≡ r' = omega arith in
      let q : slept ≡ slept' = omega arith in λ i. first_rpc (p i) (q i) more
  after_failures r slept r' slept' (x ∷ es) more e h d = rw (le→ltb 10 (r + 1) (omega arith)) (
      after_failures (r + 1) (slept + (10 + (r + 1) * 5)) r' slept' es more (omega arith) h
        (omega arith))

  -- Up to 10 failures in front of a result are waited out: `k` of them cost `5 k (k + 5) / 2` seconds.
  pub first_rpc_waits :
      (es : List (List ℕ)) (info : Info) (more : List (Result (List ℕ) (Option Info)))
      → length es ≤ 10
      → (slept : ℕ) × (first_rpc 0 0 (failures es ++ ok (some info) ∷ more) ≡ (reached, slept))
        × (2 * slept ≡ 5 * (length es * (length es + 5)))
  first_rpc_waits es info more h = (
    delay 0 (length es),
    after_failures 0 0 (length es) (delay 0 (length es)) es (ok (some info) ∷ more) (omega arith) h
          (omega arith)
        ∙ unfold first_rpc in refl,
    omega (arith, delay_lem (length es) 0),
  )

  -- The eleventh failure in a row ends the process, whatever would have followed, behind waits of 375
  -- seconds.
  pub first_rpc_gives_up :
      (es : List (List ℕ)) (e : List ℕ) (more : List (Result (List ℕ) (Option Info)))
      → length es ≡ 10
      → first_rpc 0 0 (failures es ++ err e ∷ more)
        ≡ (ended "unable to issue getblockchaininfo RPC call to zcashd node", 375)
  first_rpc_gives_up es e more h =
      after_failures 0 0 10 375 es (err e ∷ more) (omega arith) (omega arith)
        (ap (λ n. 0 + delay 0 n) h)
      ∙ unfold first_rpc in refl
