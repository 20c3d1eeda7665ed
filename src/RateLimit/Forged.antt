-- ===== src/RateLimit/Forged.antt =====
-- Headers that a client sets do not change whom its calls are counted for.
use lightwalletd.Common.{ℕ, List, ◌≡◌, refl, sym, ap, ◌∙◌, false, Option, none, some}
use lightwalletd.RateLimit.Defs.{Amounts, RateLimiter, allow}
use lightwalletd.RateLimit.PeerKey.{
  Networks, Context, peer_ip, peer_addr, is_trusted, peer_key, limited,
}

module _ {Ip Net F : Type 0} (n : Networks Ip Net) (a : Amounts F) where
  peer_key-untrusted :
      (trusted : List Net) (ctx : Context)
      → is_trusted n trusted (peer_ip n ctx.peer) ≡ false
      → peer_key n trusted ctx ≡ peer_addr n ctx.peer
  unfolding peer_key
  peer_key-untrusted trusted ctx h = rw h refl

  -- For a connection whose address is in none of the trusted networks, the verdict on a call and what
  -- is counted are the same whatever headers the client sets.
  pub limited_forged :
      (trusted : List Net) (ctx forged : Context) (now : ℕ) (cost : F)
      (limiter : Option (RateLimiter F))
      → forged.peer ≡ ctx.peer
      → is_trusted n trusted (peer_ip n ctx.peer) ≡ false
      → limited n a trusted forged now cost limiter ≡ limited n a trusted ctx now cost limiter
  unfolding limited
  limited_forged trusted ctx forged now cost none e h = refl
  limited_forged trusted ctx forged now cost (some r) e h =
      ap (λ key. let (allowed, r') = allow a now key cost r in (allowed, some r'))
        (peer_key-untrusted trusted forged (rw e h)
          ∙ ap (peer_addr n) e
          ∙ sym (peer_key-untrusted trusted ctx h))
