-- ===== src/NodeInfo/Replied.antt =====
-- When `GetLightdInfo` answers with neither a result nor an error.
use lightwalletd.Common.{
  ℕ, List, ◌≡◌, ◌↔◌, ◌⊎◌, inl, inr, refl, arith, Bool, Option, none, some, Result, ok, err,
}
use lightwalletd.NodeInfo.Defs.{ReplyGetblockchaininfo, ReplyGetinfo, BuildTexts, get_lightd_info}

abbrev pub IsUndecoded : {A : Type 0} → Result (List ℕ) (Option A) → Type 0
IsUndecoded r = r ≡ ok none

abbrev pub IsDecoded : {A : Type 0} → Result (List ℕ) (Option A) → Type 0
IsDecoded {A} r = (a : A) × (r ≡ ok (some a))

module _ (texts : BuildTexts) (darkside_enabled : Bool) where
  -- Neither a result nor an error is returned exactly if the result of the first call could not be
  -- decoded, or that of the second after the first was.
  pub get_lightd_info_nil :
      (info : Result (List ℕ) (Option ReplyGetinfo))
      (chain : Result (List ℕ) (Option ReplyGetblockchaininfo))
      → (get_lightd_info texts darkside_enabled info chain ≡ (none, none))
        ↔ (IsUndecoded info ⊎ (IsDecoded info × IsUndecoded chain))
  unfolding get_lightd_info
  get_lightd_info_nil (err e) chain = ground arith
  get_lightd_info_nil (ok none) chain = ((λ h. inl refl), λ h. refl)
  get_lightd_info_nil (ok (some info)) (err e) = ground arith
  get_lightd_info_nil (ok (some info)) (ok none) = ((λ h. inr ((info, refl), refl)), λ h. refl)
  get_lightd_info_nil (ok (some info)) (ok (some chain)) = ground arith
