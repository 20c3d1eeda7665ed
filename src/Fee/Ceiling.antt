-- ===== src/Fee/Ceiling.antt =====
-- The fee ceiling: what is resubmitted with the node's check off.
use lightwalletd.Common.{
  ℕ, List, ◌≡◌, ◌↔◌, refl, true, Option, none, some, arith, Bool-cases, inl, inr,
}
use lightwalletd.Common.Int.{ℤ, pos, ◌≤ℤ◌}
use lightwalletd.Fee.Defs.{Prevout}
use lightwalletd.Fee.Send.{
  YedInfo, yellowback_fee_ceiling, is_absurd_fee, verdict, judged, established_fee, under_ceiling,
  high_fee_verdict,
}

module _ (gettxout : Prevout → Option (List ℕ)) where
  -- What has to hold for a resubmission: the node's refusal is the one for an absurdly high fee, the
  -- node names a cap, and the fee that is established lies between 0 and the cap.
  pub record IsAllowed (info : Option YedInfo) (data' : List ℕ) (message : Option (List ℕ))
      : Type 0 where
    pub text : List ℕ
    pub refused : message ≡ some text
    pub is_absurd : is_absurd_fee text ≡ true
    pub cap : ℤ
    pub cap_named : yellowback_fee_ceiling info ≡ some cap
    pub fee : ℤ
    pub fee_known : established_fee gettxout data' text ≡ some fee
    pub fee_not_negative : pos 0 ≤ℤ fee
    pub fee_within : fee ≤ℤ cap

  verdict_bounds : (f c : ℤ) → (verdict f c).0 ≡ true → (pos 0 ≤ℤ f) × (f ≤ℤ c)
  unfolding verdict
  verdict_bounds f c h = ground arith

  judged_allows :
      (fee : Option ℤ) (c : ℤ)
      → (judged fee c).0 ≡ true
      → (f : ℤ) × (fee ≡ some f) × (pos 0 ≤ℤ f) × (f ≤ℤ c)
  unfolding verdict
  judged_allows none c h = absurd (ground arith)
  judged_allows (some f) c h = let (low, high) = verdict_bounds f c h in (f, refl, low, high)

  under_allows :
      (data' text : List ℕ) (named : Option ℤ)
      → (under_ceiling gettxout data' text named).0 ≡ true
      → (c : ℤ) × (named ≡ some c) × ((judged (established_fee gettxout data' text) c).0 ≡ true)
  under_allows data' text none h = absurd (ground arith)
  under_allows data' text (some c) h = (c, refl, h)

  text_allows :
      (info : Option YedInfo) (data' text : List ℕ)
      → (high_fee_verdict gettxout info data' (some text)).0 ≡ true
      → IsAllowed info data' (some text)
  unfolding high_fee_verdict
  text_allows info data' text h = elim (Bool-cases (is_absurd_fee text)) [
    | inl a ↦
        let (c, named, j) = under_allows data' text (yellowback_fee_ceiling info) (rw a at h) in
        let (f, known, low, high) = judged_allows (established_fee gettxout data' text) c j in
        record {
          text = text;
          refused = refl;
          is_absurd = a;
          cap = c;
          cap_named = named;
          fee = f;
          fee_known = known;
          fee_not_negative = low;
          fee_within = high;
        }
    | inr a ↦ absurd (ground arith)
  ]

  verdict_allows : (f c : ℤ) → pos 0 ≤ℤ f → f ≤ℤ c → (verdict f c).0 ≡ true
  unfolding verdict
  verdict_allows f c h k = ground arith

  allowed_is_given :
      {info : Option YedInfo} {data' : List ℕ} {message : Option (List ℕ)}
      → IsAllowed info data' message
      → (high_fee_verdict gettxout info data' message).0 ≡ true
  unfolding high_fee_verdict
  allowed_is_given {info} {data'} a =
      rw (a.refused, a.is_absurd, a.cap_named, a.fee_known)
        (verdict_allows a.fee a.cap a.fee_not_negative a.fee_within)

  -- A transaction is resubmitted with the node's check off exactly if the node refused it for an
  -- absurdly high fee, names a cap, and the fee is known, not negative and at most the cap.
  pub high_fee_verdict_allows :
      (info : Option YedInfo) (data' : List ℕ) (message : Option (List ℕ))
      → ((high_fee_verdict gettxout info data' message).0 ≡ true) ↔ IsAllowed info data' message
  high_fee_verdict_allows info data' none =
      (λ h. absurd (unfold high_fee_verdict in ground arith), allowed_is_given)
  high_fee_verdict_allows info data' (some text) = (text_allows info data' text, allowed_is_given)
