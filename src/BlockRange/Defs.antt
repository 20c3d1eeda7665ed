-- ===== src/BlockRange/Defs.antt =====
-- common/common.go: `GetBlock` and `GetBlockRange`. A range asks for each of its heights once, so what
-- it meets is a function of the height: the cache at that time (the ingestor runs beside it) and the
-- node's reply. What the `select` statements saw is a function of the round. Heights are natural.
use lightwalletd.Common.{
  ℕ, zero, suc, ◌+◌, ◌-◌, List, [], ◌∷◌, Bool, Option, none, some, Result, ok, err, ltb,
  if◌then◌else◌,
}
use lightwalletd.Block.{CompactBlock}
use lightwalletd.BlockCache.{Halt, BlockCache, get}
use lightwalletd.Fetch.{BlockReply, FetchError, Fetched, get_block_from_rpc}

pub data GetError : Type 0 where
  from_node : FetchError → GetError
  newer_than_latest : GetError

-- How a range ends: `errOut` has taken nil, or an error, or the context is done.
pub data Ending : Type 0 where
  finished : Ending
  failed : GetError → Ending
  cancelled : Ending

abbrev pub Sent : Type 0
Sent = List CompactBlock × Ending

-- The height `j` of the round `t`, which is `i - low`.
abbrev pub height_at : ℕ → ℕ → ℕ → ℕ
height_at start end t = if ltb end start then start - t else start + t

module _ (unmarshal : List ℕ → Option CompactBlock) (sha256 : List ℕ → List ℕ) where
  -- The answer of the node, beside the height from which the cache is to be recovered, if any.
  abbrev pub answer :
      Option ℕ → Result Halt Fetched → Result Halt (Result GetError CompactBlock × Option ℕ)
  answer r (err e) = err e
  answer r (ok (err e)) = ok (err (from_node e), r)
  answer r (ok (ok none)) = ok (err newer_than_latest, r)
  answer r (ok (ok (some block))) = ok (ok block, r)

  abbrev pub or_ask :
      ℕ
      → BlockReply
      → Result Halt (Option CompactBlock × Option ℕ)
      → Result Halt (Result GetError CompactBlock × Option ℕ)
  or_ask height reply (err e) = err e
  or_ask height reply (ok (some block, r)) = ok (ok block, r)
  or_ask height reply (ok (none, r)) = answer r (get_block_from_rpc sha256 height reply)

  unfoldable pub get_block :
      BlockCache → ℕ → BlockReply → Result Halt (Result GetError CompactBlock × Option ℕ)
  unfolding get get_block_from_rpc
  get_block c height reply = or_ask height reply (get unmarshal c height)

  abbrev pub sent_before : CompactBlock → Result Halt Sent → Result Halt Sent
  sent_before block (err e) = err e
  sent_before block (ok (blocks, ending)) = ok (block ∷ blocks, ending)

  -- The two `select` statements of a round, and the rest of the loop.
  abbrev pub select :
      Bool
      → Result Halt (Result GetError CompactBlock × Option ℕ)
      → Result Halt Sent
      → Result Halt Sent
  select done (err e) rest = err e
  select done (ok (err e, r)) rest = ok ([], if done then cancelled else failed e)
  select done (ok (ok block, r)) rest = if done then ok ([], cancelled) else sent_before block rest

  module _ (seen : ℕ → BlockCache × BlockReply) (done : ℕ → Bool) where
    abbrev pub asked : ℕ → Result Halt (Result GetError CompactBlock × Option ℕ)
    asked height = get_block (seen height).0 height (seen height).1

    -- The loop, with the rounds that are left and the number of this one.
    unfoldable pub range_loop : ℕ → ℕ → ℕ → ℕ → Result Halt Sent
    unfolding get_block
    range_loop start end zero t = ok ([], if done t then cancelled else finished)
    range_loop start end (suc n) t =
        let rest = range_loop start end n (t + 1) in
        select (done t) (asked (height_at start end t)) rest

    unfoldable pub get_block_range : ℕ → ℕ → Result Halt Sent
    unfolding range_loop
    get_block_range start end =
        if ltb end start
        then range_loop start end (start - end + 1) 0
        else range_loop start end (end - start + 1) 0
