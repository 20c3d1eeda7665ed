-- ===== src/Submit/Tests.antt =====
-- A transaction that the node refuses, and the theorem at it.
use lightwalletd.Common.{ℕ, List, [], ◌∷◌, ◌≡◌, refl, true, false, Option, some, none, ok, err}
use lightwalletd.Common.Int.{pos, negsuc}
use lightwalletd.Common.Text.{codes}
use lightwalletd.Fee.{Prevout, YedInfo, high_fee_verdict}
use lightwalletd.Yellowback.{split_colon}
use lightwalletd.Submit.Defs.{said, refusal, NodeReply, response, send_transaction}
use lightwalletd.Submit.Resent.{IsResent, refusal_for, send_transaction-IsResent}

abbrev no_outputs : Prevout → Option (List ℕ)
no_outputs p = none

abbrev capped_at : ℕ → Option YedInfo
capped_at cap =
    some
      (record { rpc_version = pos 8; max_tx_fee_ceiling_zat = pos 9000; max_tx_fee_zat = pos cap })

abbrev refused : NodeReply
refused = err (codes "-26: absurdly high fees 0aF, 7999 > 10")

abbrev taken : NodeReply
taken = ok (codes "txid")

-- The fee is within the cap, and the node takes it the second time; or it is above.
sent_again :
    send_transaction no_outputs (capped_at 8000) [] refused taken
    ≡ (ok (record { error_code = pos 0; error_message = said (codes "txid") }), false ∷ true ∷ [])
unfolding send_transaction response high_fee_verdict split_colon
sent_again = refl

above_cap : send_transaction no_outputs (capped_at 7000) [] refused taken ≡ (
  ok (record { error_code = negsuc 25; error_message = refusal (pos 7999) (pos 7000) }),
  false ∷ [],
)
unfolding send_transaction response high_fee_verdict split_colon
above_cap = refl

send_transaction-IsResent_example :
    (IsResent no_outputs (capped_at 8000) [] refused
      → send_transaction no_outputs (capped_at 8000) [] refused taken
        ≡ (response (refusal_for no_outputs (capped_at 8000) [] refused) taken, false ∷ true ∷ []))
    × (¬ IsResent no_outputs (capped_at 8000) [] refused
        → send_transaction no_outputs (capped_at 8000) [] refused taken
          ≡ (response (refusal_for no_outputs (capped_at 8000) [] refused) refused, false ∷ []))
send_transaction-IsResent_example =
    send_transaction-IsResent no_outputs (capped_at 8000) [] refused taken
