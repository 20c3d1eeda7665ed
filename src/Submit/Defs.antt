-- ===== src/Submit/Defs.antt =====
-- frontend/service.go: `SendTransaction`. The node's replies to the two calls that it may get are
-- parameters: an error's text, or the result. A refusal of the verdict stands for its text.
use lightwalletd.Common.{
  ℕ, List, [], ◌∷◌, Bool, true, false, Option, none, some, Result, ok, err, if◌then◌else◌,
}
use lightwalletd.Common.Int.{ℤ, pos}
use lightwalletd.Fee.{
  Prevout, YedInfo, Refusal, none_given, fee_exceeds_cap, parse_int, high_fee_verdict,
}
use lightwalletd.Yellowback.{trim_space, split_colon, in_int32}

abbrev pub NodeReply : Type 0
NodeReply = Result (List ℕ) (List ℕ)

pub data Message : Type 0 where
  said : List ℕ → Message
  refusal : ℤ → ℤ → Message

pub record SendResponse : Type 0 where
  pub error_code : ℤ
  pub error_message : Message

-- `SendTransaction couldn't parse error code`
pub data SubmitError : Type 0 where
  no_error_code : SubmitError

-- The answer, and for each call of the node whether it allowed high fees.
abbrev pub Submitted : Type 0
Submitted = Result SubmitError SendResponse × List Bool

abbrev pub message_of : Refusal → List ℕ → Message
message_of none_given text = said text
message_of (fee_exceeds_cap fee cap) text = refusal fee cap

abbrev pub with_code : Message → Option ℤ → Result SubmitError SendResponse
with_code message none = err no_error_code
with_code message (some code) =
    if in_int32 (some code)
    then ok (record { error_code = code; error_message = message })
    else err no_error_code

abbrev pub from_parts : Refusal → Option (List ℕ × List ℕ) → Result SubmitError SendResponse
from_parts given none = err no_error_code
from_parts given (some p) = with_code (message_of given (trim_space p.1)) (parse_int p.0)

-- What the wallet gets for the last reply.
unfoldable pub response : Refusal → NodeReply → Result SubmitError SendResponse
response given (err text) = from_parts given (split_colon text)
response given (ok result) = ok (record { error_code = pos 0; error_message = said result })

abbrev pub judged_reply : NodeReply → NodeReply → Bool × Refusal → Submitted
judged_reply first second (true, given) = (response given second, false ∷ true ∷ [])
judged_reply first second (false, given) = (response given first, false ∷ [])

module _ (gettxout : Prevout → Option (List ℕ)) where
  unfoldable pub send_transaction : Option YedInfo → List ℕ → NodeReply → NodeReply → Submitted
  send_transaction info data' (ok result) second = (response none_given (ok result), false ∷ [])
  send_transaction info data' (err text) second =
      judged_reply (err text) second (high_fee_verdict gettxout info data' (some text))
