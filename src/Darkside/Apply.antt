-- ===== src/Darkside/Apply.antt =====
-- common/darkside.go: `DarksideApplyStaged` and `setPrevhash`. A slice of the header that the parser has
-- read is a part of the block's own bytes, so that the copy over them changes the header too. An index
-- out of range is a panic.
use lightwalletd.Common.{
  ℕ, ◌+◌, ◌-◌, ◌%◌, List, [], ◌∷◌, ◌++◌, Bool, true, false, not, Option, none, some, Error, Result,
  ok, err, ltb, leb, ◌==◌, if◌then◌else◌, length, take, drop, get_elem?, set,
}
use lightwalletd.Common.Int.{ℤ, pos, negsuc, ltb_ℤ}
use lightwalletd.Header.{BlockHeader, get_encodable_hash}
use lightwalletd.Block.{Block, new_block, parse_block, get_height}
use lightwalletd.BlockCache.{Halt, fatal, panic, copy_into}
use lightwalletd.Darkside.Defs.{
  too_low, too_high, no_active_blocks, reset_first, StagedTx, Darkside, Outcome, fails, succeeds,
  then_next, add_block_active,
}

-- `block[i]++`
abbrev pub bump_at : ℕ → List ℕ → Option ℕ → Option (List ℕ)
bump_at i block none = none
bump_at i block (some b) = some (set block i ((b + 1) % 256))

unfoldable pub increment : ℕ → List ℕ → Option (List ℕ)
increment i block = bump_at i block (get_elem? block i)

-- Where the low byte has wrapped around, the high one is incremented.
abbrev pub carry_if : List ℕ → Option ℕ → Option (List ℕ)
carry_if block none = none
carry_if block (some low) = if low == 0 then increment 1489 block else some block

abbrev pub carry : Option (List ℕ) → Option (List ℕ)
carry none = none
carry (some block) = carry_if block (get_elem? block 1488)

abbrev pub increment_word : List ℕ → Option (List ℕ)
increment_word block = carry (increment 1488 block)

abbrev pub or_panic : Option (List ℕ) → Result Halt (List ℕ)
or_panic none = err panic
or_panic (some b) = ok b

-- 252 becomes 253 in three bytes: the bytes behind it move up by two.
abbrev pub widen : List ℕ → List ℕ
widen block = take 1487 block ++ 253 ∷ 253 ∷ 0 ∷ drop 1488 block

-- The number of transactions behind the header of 1487 bytes, incremented.
abbrev pub count_by : List ℕ → Option ℕ → Result Halt (List ℕ)
count_by block none = err panic
count_by block (some first) =
    if ltb first 252
    then or_panic (increment 1487 block)
    else if first == 252
    then ok (widen block)
    else if first == 253
    then or_panic (increment_word block)
    else err (fatal "unexpected compact transaction count")

unfoldable pub count_tx : List ℕ → Result Halt (List ℕ)
unfolding increment
count_tx block = count_by block (get_elem? block 1487)

-- `block[68]++`, and the transaction behind the block.
abbrev pub with_tx : List ℕ → Option (List ℕ) → Result Halt (List ℕ)
with_tx tx_bytes none = err panic
with_tx tx_bytes (some block) = ok (block ++ tx_bytes)

abbrev pub marked : List ℕ → Result Halt (List ℕ) → Result Halt (List ℕ)
marked tx_bytes (err h) = err h
marked tx_bytes (ok block) = with_tx tx_bytes (increment 68 block)

unfoldable pub append_tx : List ℕ → List ℕ → Result Halt (List ℕ)
unfolding count_tx increment
append_tx tx_bytes block = marked tx_bytes (count_tx block)

abbrev pub put_active : Darkside → ℕ → Result Halt (List ℕ) → Outcome
put_active d index (err h) = err h
put_active d index (ok block) =
    succeeds (record d { active_blocks = set d.active_blocks index block })

abbrev pub apply_at : StagedTx → Darkside → ℕ → Option (List ℕ) → Outcome
apply_at tx d index none = err panic
apply_at tx d index (some block) = put_active d index (append_tx tx.bytes block)

-- A staged transaction goes into the active block of its height.
abbrev pub apply_tx_at : StagedTx → Darkside → ℤ → Outcome
apply_tx_at tx d (negsuc n) = fails (too_low tx.height) d
apply_tx_at tx d (pos n) =
    if ltb n d.start_height
    then fails (too_low tx.height) d
    else if leb (d.start_height + length d.active_blocks) n
    then fails too_high d
    else apply_at tx d (n - d.start_height) (get_elem? d.active_blocks (n - d.start_height))

unfoldable pub apply_txs : List StagedTx → Darkside → Outcome
unfolding append_tx
apply_txs [] d = succeeds d
apply_txs (tx ∷ txs) d = then_next (apply_tx_at tx d tx.height) (apply_txs txs)

unfoldable pub apply_blocks : List (List ℕ) → Darkside → Outcome
unfolding add_block_active
apply_blocks [] d = succeeds d
apply_blocks (b ∷ bs) d = then_next (add_block_active b d) (apply_blocks bs)

-- `copy(blockBytes[4:4+32], prevhash)`
abbrev pub copied_over : List ℕ → List ℕ → List ℕ
copied_over prevhash block =
    take 4 block ++ (copy_into (take 32 (drop 4 block)) prevhash ++ drop 36 block)

abbrev pub with_prevhash : Option (List ℕ) → List ℕ → List ℕ
with_prevhash none block = block
with_prevhash (some prevhash) block = copied_over prevhash block

module _ (sha256 : List ℕ → List ℕ) where
  -- `block.GetEncodableHash()`, behind the copy.
  abbrev pub hash_with : Option (List ℕ) → BlockHeader → List ℕ
  hash_with none hdr = get_encodable_hash sha256 hdr.raw
  hash_with (some prevhash) hdr =
      get_encodable_hash sha256
        (record hdr.raw { hash_prev_block = copy_into hdr.raw.hash_prev_block prevhash })

  abbrev pub cons_ok : List ℕ → Result Halt (List (List ℕ)) → Result Halt (List (List ℕ))
  cons_ok b (err h) = err h
  cons_ok b (ok bs) = ok (b ∷ bs)

  -- The rest of the loop, with the hash of this block; the log line asks for its height too.
  abbrev pub relinked :
      Option (List ℕ)
      → List ℕ
      → Option BlockHeader
      → Option (ℤ × Block)
      → (List ℕ → Result Halt (List (List ℕ)))
      → Result Halt (List (List ℕ))
  relinked prevhash block none height rest = err panic
  relinked prevhash block (some hdr) none rest = err panic
  relinked prevhash block (some hdr) (some h) rest =
      cons_ok (with_prevhash prevhash block) (rest (hash_with prevhash hdr))

  abbrev pub relink :
      Option (List ℕ)
      → List ℕ
      → Result Error Block × List ℕ
      → (List ℕ → Result Halt (List (List ℕ)))
      → Result Halt (List (List ℕ))
  relink prevhash block (err e, s) rest = err (fatal "setPrevhash")
  relink prevhash block (ok b, c ∷ s) rest = err (fatal "block is too long")
  relink prevhash block (ok b, []) rest = relinked prevhash block b.hdr (get_height b) rest

  -- The loop of `setPrevhash`, with `prevhash`, which is nil before the first block.
  unfoldable pub set_prevhash : Option (List ℕ) → List (List ℕ) → Result Halt (List (List ℕ))
  unfolding parse_block get_height get_encodable_hash
  set_prevhash prevhash [] = ok []
  set_prevhash prevhash (block ∷ blocks) =
      relink prevhash block (parse_block new_block block) λ h. set_prevhash (some h) blocks

  abbrev pub with_active : ℤ → Darkside → Result Halt (List (List ℕ)) → Outcome
  with_active height d (err h) = err h
  with_active height d (ok blocks) =
      succeeds
        (record d { active_blocks = blocks; latest_height = height; ingestor_running = true })

  abbrev pub finish : ℤ → Darkside → Outcome
  finish height d = with_active height d (set_prevhash none d.active_blocks)

  abbrev pub is_none : List (List ℕ) → Bool
  is_none [] = true
  is_none (b ∷ bs) = false

  -- The staged transactions, once the staged blocks are active.
  abbrev pub apply_rest : ℤ → Darkside → Outcome
  apply_rest height d =
      if is_none d.active_blocks
      then fails no_active_blocks d
      else then_next (apply_txs d.staged_transactions (record d { staged_transactions = [] }))
          (finish height)

  unfoldable pub apply_staged : ℤ → Darkside → Outcome
  unfolding set_prevhash apply_txs apply_blocks
  apply_staged height d =
      let next =
        then_next (apply_blocks d.staged_blocks (record d { staged_blocks = [] }))
          (apply_rest height) in
      if not d.resetted
      then fails reset_first d
      else if ltb_ℤ height (pos d.start_height)
      then fails (too_low height) d
      else next
