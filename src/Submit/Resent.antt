-- ===== src/Submit/Resent.antt =====
-- When `SendTransaction` sends a transaction again with the node's fee check off.
use mathlib.Core.Option.{none-ne-some}
use lightwalletd.Common.{
  ℕ, List, [], ◌∷◌, ◌≡◌, refl, Bool, true, false, Bool-cases, inl, inr, Option, none, some, arith,
  ok, err,
}
use lightwalletd.Fee.{Prevout, YedInfo, Refusal, high_fee_verdict}
use lightwalletd.Fee.Ceiling.{IsAllowed, high_fee_verdict_allows}
use lightwalletd.Submit.Defs.{NodeReply, response, judged_reply, send_transaction}

module _ (gettxout : Prevout → Option (List ℕ)) where
  abbrev pub error_of : NodeReply → Option (List ℕ)
  error_of (ok result) = none
  error_of (err text) = some text

  -- The node refused the first call, and the refusal allows a second one.
  abbrev pub IsResent : Option YedInfo → List ℕ → NodeReply → Type 0
  IsResent info data' first = IsAllowed gettxout info data' (error_of first)

  once :
      (first second : NodeReply) (v : Bool × Refusal)
      → v.0 ≡ false
      → judged_reply first second v ≡ (response v.1 first, false ∷ [])
  once first second (true, given) h = absurd (ground arith)
  once first second (false, given) h = refl

  twice_sent :
      (first second : NodeReply) (v : Bool × Refusal)
      → v.0 ≡ true
      → judged_reply first second v ≡ (response v.1 second, false ∷ true ∷ [])
  twice_sent first second (true, given) h = refl
  twice_sent first second (false, given) h = absurd (ground arith)

  abbrev pub refusal_for : Option YedInfo → List ℕ → NodeReply → Refusal
  refusal_for info data' first = (high_fee_verdict gettxout info data' (error_of first)).1

  -- The node gets a transaction once, with its fee check on, and exactly if it refused it for an
  -- absurdly high fee, names a cap, and the fee is known, not negative and at most the cap, a second
  -- time with the check off; the wallet gets the answer to the last call.
  pub send_transaction-IsResent :
      (info : Option YedInfo) (data' : List ℕ) (first second : NodeReply)
      → (IsResent info data' first
          → send_transaction gettxout info data' first second
            ≡ (response (refusal_for info data' first) second, false ∷ true ∷ []))
        × (¬ IsResent info data' first
            → send_transaction gettxout info data' first second
              ≡ (response (refusal_for info data' first) first, false ∷ []))
  unfolding send_transaction response
  send_transaction-IsResent info data' (ok result) second =
      (λ a. absurd (none-ne-some a.text a.refused), λ n. refl)
  send_transaction-IsResent info data' (err text) second =
      let v = high_fee_verdict gettxout info data' (some text) in
      let (allows, given) = high_fee_verdict_allows gettxout info data' (some text) in
      elim (Bool-cases v.0) [
        | inl again ↦ (λ a. twice_sent (err text) second v again, λ n. absurd (n (allows again)))
        | inr stays ↦ (
          λ a. absurd (let yes = given a in ground (arith, yes, stays)),
          λ n. once (err text) second v stays,
        )
      ]
