-- ===== src/RateLimit/PeerKey.antt =====
-- frontend/yellowback_ratelimit.go: whom a call is counted for, and the gate of the handlers. The
-- network library's addresses and networks are parameters; texts are lists of codes.
use lightwalletd.Common.{
  ℕ, List, [], ◌∷◌, Bool, true, false, Option, none, some, ◌==◌, if◌then◌else◌,
}
use lightwalletd.Common.Text.{codes}
use lightwalletd.Yellowback.{trim_space}
use lightwalletd.RateLimit.Defs.{Amounts, RateLimiter, allow}

-- What the library reads of an address: the host in front of a port, the IP address, and whether a
-- network contains it.
pub record Networks (Ip Net : Type 0) : Type 0 where
  pub split_host_port : List ℕ → Option (List ℕ)
  pub parse_ip : List ℕ → Option Ip
  pub parse_cidr : List ℕ → Option Net
  pub contains : Net → Ip → Bool

-- What a call's context holds: the text of the peer's address, and the two headers, if there is
-- metadata.
pub record Context : Type 0 where
  pub peer : Option (List ℕ)
  pub metadata : Option (List (List ℕ) × List (List ℕ))

abbrev pub before_comma : List ℕ → List ℕ
before_comma [] = []
before_comma (c ∷ cs) = let rest = before_comma cs in if c == 44 then [] else c ∷ rest

abbrev pub or_text : List ℕ → List ℕ → List ℕ
or_text [] addr = addr
or_text (c ∷ cs) addr = c ∷ cs

-- The first `x-forwarded-for` entry, if there is one, and `x-real-ip` in front of it.
abbrev pub forwarded_for : List (List ℕ) → List ℕ → List ℕ
forwarded_for [] addr = addr
forwarded_for (v ∷ vs) addr = or_text (trim_space (before_comma v)) addr

abbrev pub real_ip : List (List ℕ) → List ℕ → List ℕ
real_ip [] rest = rest
real_ip (v ∷ vs) rest = or_text v rest

module _ {Ip Net : Type 0} (n : Networks Ip Net) where
  unfoldable pub trusted_proxy : List Net → Ip → Bool
  trusted_proxy [] ip = false
  trusted_proxy (net ∷ nets) ip =
      let rest = trusted_proxy nets ip in if n.contains net ip then true else rest

  abbrev pub host_of : List ℕ → Option (List ℕ) → List ℕ
  host_of addr none = addr
  host_of addr (some host) = host

  -- The peer's address, and its IP address if it is one.
  abbrev pub peer_addr : Option (List ℕ) → List ℕ
  peer_addr none = codes "unknown"
  peer_addr (some addr) = host_of addr (n.split_host_port addr)

  abbrev pub peer_ip : Option (List ℕ) → Option Ip
  peer_ip none = none
  peer_ip (some addr) = n.parse_ip (host_of addr (n.split_host_port addr))

  abbrev pub is_trusted : List Net → Option Ip → Bool
  is_trusted trusted none = false
  is_trusted trusted (some ip) = trusted_proxy trusted ip

  abbrev pub from_headers : Option (List (List ℕ) × List (List ℕ)) → List ℕ → List ℕ
  from_headers none addr = addr
  from_headers (some (x_real_ip, x_forwarded_for)) addr =
      real_ip x_real_ip (forwarded_for x_forwarded_for addr)

  unfoldable pub peer_key : List Net → Context → List ℕ
  unfolding trusted_proxy
  peer_key trusted ctx =
      if is_trusted trusted (peer_ip ctx.peer)
      then from_headers ctx.metadata (peer_addr ctx.peer)
      else peer_addr ctx.peer

  abbrev pub and_net : Option Net → Option (List Net) → Option (List Net)
  and_net none rest = none
  and_net (some net) none = none
  and_net (some net) (some nets) = some (net ∷ nets)

  -- `TrustProxies`: the networks, or none where one of them does not parse; then nothing is set.
  unfoldable pub trust_proxies : List (List ℕ) → Option (List Net)
  trust_proxies [] = some []
  trust_proxies (c ∷ cidrs) = and_net (n.parse_cidr c) (trust_proxies cidrs)

  module _ {F : Type 0} (a : Amounts F) where
    abbrev pub limit_with :
        List Net → Context → ℕ → F → Option (RateLimiter F) → Bool × Option (RateLimiter F)
    limit_with trusted ctx now cost none = (true, none)
    limit_with trusted ctx now cost (some r) =
        let (allowed, r') = allow a now (peer_key trusted ctx) cost r in (allowed, some r')

    -- `limited`: whether the error is nil, and the limiter, if there is one.
    unfoldable pub limited :
        List Net → Context → ℕ → F → Option (RateLimiter F) → Bool × Option (RateLimiter F)
    unfolding peer_key allow
    limited trusted ctx now cost limiter = limit_with trusted ctx now cost limiter
