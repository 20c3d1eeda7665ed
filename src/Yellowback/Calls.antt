-- ===== src/Yellowback/Calls.antt =====
-- common/yellowback.go: `ProbeYellowback` and `CallYed`. Texts of errors, JSON values and keys of the
-- read cache are lists of character codes; texts are ASCII. The waits are what the `select`
-- statements saw: the semaphore's slot, the timer, the context. The read cache is an interface.
use Prim.Native.String.{String}
use lightwalletd.Common.{
  ℕ, ◌^◌, List, [], ◌∷◌, Bool, true, false, ◌&&◌, ◌||◌, not, Option, none, some, Result, ok, err,
  ltb, leb, ◌==◌, if◌then◌else◌,
}
use lightwalletd.Common.Int.{ℤ, pos, negsuc, ltb_ℤ}
use lightwalletd.Common.Text.{codes}
use lightwalletd.Fee.{parse_int, known_rpc_version}
use lightwalletd.BlockCache.{same_bytes}
use lightwalletd.Yellowback.Methods.{is_allowed}

-- `strings.TrimSpace`
abbrev pub is_space : ℕ → Bool
is_space c = c == 32 || leb 9 c && leb c 13

abbrev pub trim_left : List ℕ → List ℕ
trim_left [] = []
trim_left (c ∷ cs) = let rest = trim_left cs in if is_space c then rest else c ∷ cs

-- A space is dropped if nothing but space is left behind it.
abbrev pub before_spaces : ℕ → List ℕ → List ℕ
before_spaces c [] = if is_space c then [] else c ∷ []
before_spaces c (d ∷ cs) = c ∷ d ∷ cs

abbrev pub trim_right : List ℕ → List ℕ
trim_right [] = []
trim_right (c ∷ cs) = before_spaces c (trim_right cs)

abbrev pub trim_space : List ℕ → List ℕ
trim_space s = trim_right (trim_left s)

-- `strings.SplitN(s, ":", 2)`: the two parts, if there is a colon.
abbrev pub with_front : ℕ → Option (List ℕ × List ℕ) → Option (List ℕ × List ℕ)
with_front c none = none
with_front c (some p) = some (c ∷ p.0, p.1)

unfoldable pub split_colon : List ℕ → Option (List ℕ × List ℕ)
split_colon [] = none
split_colon (c ∷ cs) =
    let rest = split_colon cs in if c == 58 then some ([], cs) else with_front c rest

-- The errors of the probe, and what it learned.
pub data ProbeError : Type 0 where
  call_failed : List ℕ → ProbeError
  unexpected_result : ProbeError
  unknown_version : ℤ → ProbeError

pub record Capability : Type 0 where
  pub enabled : Bool
  pub rpc_version : ℤ
  pub network : List ℕ

pub record Info : Type 0 where
  pub rpc_version : ℤ
  pub network : List ℕ

abbrev pub no_capability : Capability
no_capability = record { enabled = false; rpc_version = pos 0; network = [] }

-- Whether an error of the node says that there is no such method.
abbrev pub is_missing : Option (List ℕ × List ℕ) → Bool
is_missing none = false
is_missing (some p) = same_bytes (trim_space p.0) (codes "-32601")

abbrev pub same_int : ℤ → ℤ → Bool
same_int a b = not (ltb_ℤ a b) && not (ltb_ℤ b a)

-- The reply to yed_getinfo: the error's text, or the decoded result, if it could be decoded.
unfoldable pub probe_yellowback : Result (List ℕ) (Option Info) → Capability × Option ProbeError
unfolding split_colon
probe_yellowback (err e) =
    if is_missing (split_colon e)
    then (no_capability, none)
    else (no_capability, some (call_failed e))
probe_yellowback (ok none) = (record no_capability { enabled = true }, some unexpected_result)
probe_yellowback (ok (some info)) =
    let capability : Capability = record {
      enabled = true;
      rpc_version = info.rpc_version;
      network = info.network;
    } in
    if same_int info.rpc_version known_rpc_version
    then (capability, none)
    else (capability, some (unknown_version info.rpc_version))

-- gRPC statuses, with what their texts name.
pub data Status : Type 0 where
  internal : String → Status
  resource_exhausted : String → Status
  deadline_exceeded : String → Status
  canceled : String → Status
  failed_precondition : List ℕ → Status
  unavailable : List ℕ → Status

-- Why a context is done.
pub data Departure : Type 0 where
  deadline : Departure
  left : Departure

abbrev pub ctx_status : Departure → String → Status
ctx_status deadline method = deadline_exceeded method
ctx_status left method = canceled method

-- What the first `select` saw: a slot of the semaphore (or there is none), or the timer, or the
-- context; and what the second saw.
pub data Queue : Type 0 where
  slot : Queue
  busy : Queue
  departed : Departure → Queue

pub data Reply : Type 0 where
  answered : Result (List ℕ) (List ℕ) → Reply
  departed_waiting : Departure → Reply

-- `strconv.ParseInt(s, 10, 32)` succeeds.
abbrev pub in_int32 : Option ℤ → Bool
in_int32 none = false
in_int32 (some (pos n)) = ltb n (2 ^ 31)
in_int32 (some (negsuc n)) = ltb n (2 ^ 31)

abbrev pub error_status_of : List ℕ → Option (List ℕ × List ℕ) → Status
error_status_of e none = unavailable e
error_status_of e (some p) =
    if in_int32 (parse_int (trim_space p.0))
    then failed_precondition (trim_space p.1)
    else unavailable e

-- `code: message` is the node's own error; anything else is a failed transport.
unfoldable pub error_status : List ℕ → Status
unfolding split_colon
error_status e = error_status_of e (split_colon e)

pub record Request : Type 0 where
  pub method : String
  pub params : List (List ℕ)
  pub queue : Queue
  pub reply : Reply

-- The read cache: `yedCacheKey`, `yedCacheLookup` and `yedCacheRemember`.
pub record ReadCache (C : Type 0) : Type 0 where
  pub key : String → List (List ℕ) → List ℕ
  pub lookup : C → List ℕ → Option (List ℕ) × C
  pub remember : C → List ℕ → List ℕ → C

-- The cache, and the calls that reached the node, the newest first.
pub record Server (C : Type 0) : Type 0 where
  pub cache : C
  pub sent : List (String × List (List ℕ))

module _ {C : Type 0} (r : ReadCache C) where
  abbrev pub after_reply : Request → List ℕ → Server C → Reply → Result Status (List ℕ) × Server C
  after_reply q key s (answered (ok raw)) =
      (ok raw, record s { cache = r.remember s.cache key raw })
  after_reply q key s (answered (err e)) = (err (error_status e), s)
  after_reply q key s (departed_waiting d) = (err (ctx_status d q.method), s)

  abbrev pub after_queue : Request → List ℕ → Server C → Queue → Result Status (List ℕ) × Server C
  after_queue q key s busy = (err (resource_exhausted q.method), s)
  after_queue q key s (departed d) = (err (ctx_status d q.method), s)
  after_queue q key s slot =
      after_reply q key (record s { sent = (q.method, q.params) ∷ s.sent }) q.reply

  abbrev pub after_lookup :
      Request → List ℕ → Server C → Option (List ℕ) × C → Result Status (List ℕ) × Server C
  after_lookup q key s (some raw, c) = (ok raw, record s { cache = c })
  after_lookup q key s (none, c) = after_queue q key (record s { cache = c }) q.queue

  unfoldable pub call_yed : Request → Server C → Result Status (List ℕ) × Server C
  unfolding is_allowed error_status
  call_yed q s =
      let key = r.key q.method q.params in
      let called = after_lookup q key s (r.lookup s.cache key) in
      if is_allowed q.method then called else (err (internal q.method), s)

  -- One call after the other.
  unfoldable pub call_all : List Request → Server C → Server C
  unfolding call_yed
  call_all [] s = s
  call_all (q ∷ qs) s = call_all qs (call_yed q s).1
