-- ===== src/Darkside/Requests.antt =====
-- common/darkside.go: `darksideRawRequest`, on the decoded parameters of the requests, and the calls that
-- read or clear what is kept. Texts are lists of codes.
use lightwalletd.Common.{
  ℕ, zero, suc, ◌+◌, ◌-◌, ◌/◌, ◌%◌, List, [], ◌∷◌, ◌++◌, Bool, true, false, Option, none, some,
  Error, Result, ok, err, ltb, if◌then◌else◌, get_elem?,
}
use lightwalletd.Common.Int.{pos, ltb_ℤ}
use lightwalletd.Common.Text.{codes}
use lightwalletd.Transaction.{Transaction, parse_transaction, tx_display_hash}
use lightwalletd.BlockCache.{same_bytes}
use lightwalletd.Fee.{encode_to_string}
use lightwalletd.Fetch.{decode_string, BlockReply}
use lightwalletd.NodeInfo.{ReplyGetblockchaininfo, ReplyGetinfo}
use lightwalletd.Darkside.Defs.{Utxo, Darkside}

-- A number in decimal, with fuel for its digits.
abbrev pub decimal : ℕ → ℕ → List ℕ
decimal zero n = []
decimal (suc fuel) n =
    let front = decimal fuel (n / 10) in
    if ltb n 10 then (48 + n) ∷ [] else front ++ (48 + n % 10) ∷ []

abbrev pub below_activation : ℕ → List ℕ
below_activation height =
    codes "getblock: requesting height "
    ++ decimal (height + 1) height
    ++ codes " is less than sapling activation height"

abbrev pub active_at : Option (List ℕ) → BlockReply
active_at none = err (codes "-8:")
active_at (some block) = ok (some (encode_to_string block))

abbrev pub active_within : Darkside → ℕ → BlockReply
active_within d height =
    if ltb_ℤ d.latest_height (pos height)
    then err (codes "-8:")
    else if ltb height d.start_height
    then err (below_activation height)
    else active_at (get_elem? d.active_blocks (height - d.start_height))

abbrev pub unless_empty : List (List ℕ) → BlockReply → BlockReply
unless_empty [] reply = err (codes "-8:")
unless_empty (b ∷ bs) reply = reply

-- `getblock`
unfoldable pub darkside_getblock : Darkside → ℕ → BlockReply
darkside_getblock d height = unless_empty d.active_blocks (active_within d height)

-- `getblockchaininfo` and `getinfo`
unfoldable pub darkside_getblockchaininfo : Darkside → ReplyGetblockchaininfo
darkside_getblockchaininfo d = record {
  chain = d.chain_name;
  upgrades = (codes "76b809bb", pos d.start_height) ∷ [];
  blocks = d.latest_height;
  chaintip = d.branch_id;
  estimated_height = pos 0;
}

abbrev pub darkside_getinfo : ReplyGetinfo
darkside_getinfo = record { build = []; subversion = [] }

-- `sendrawtransaction`: the hash in hexadecimal, and the state.
pub data SendError : Type 0 where
  not_hex_string : SendError
  parsing_tx : Error → SendError
  tx_too_long : SendError

module _ (sha256 : List ℕ → List ℕ) where
  abbrev pub incoming_tx :
      List ℕ → Darkside → Result Error Transaction × List ℕ → Result SendError (List ℕ) × Darkside
  incoming_tx tx_bytes d (err e, rest) = (err (parsing_tx e), d)
  incoming_tx tx_bytes d (ok tx, c ∷ rest) = (err tx_too_long, d)
  incoming_tx tx_bytes d (ok tx, []) = (
    ok (encode_to_string (tx_display_hash sha256 tx).0),
    record d { incoming_transactions = d.incoming_transactions ++ tx_bytes ∷ [] },
  )

  abbrev pub incoming_hex : Darkside → Option (List ℕ) → Result SendError (List ℕ) × Darkside
  incoming_hex d none = (err not_hex_string, d)
  incoming_hex d (some tx_bytes) = incoming_tx tx_bytes d (parse_transaction tx_bytes)

  unfoldable pub darkside_sendrawtransaction :
      List ℕ → Darkside → Result SendError (List ℕ) × Darkside
  unfolding parse_transaction tx_display_hash decode_string
  darkside_sendrawtransaction rawtx d = incoming_hex d (decode_string rawtx)

-- `DarksideClearIncomingTransactions`
abbrev pub clear_incoming_transactions : Darkside → Darkside
clear_incoming_transactions d = record d { incoming_transactions = [] }

-- `getaddressutxos`: those of the addresses that are asked for.
abbrev pub is_one_of : List ℕ → List (List ℕ) → Bool
is_one_of address [] = false
is_one_of address (a ∷ addresses) =
    let rest = is_one_of address addresses in if same_bytes a address then true else rest

unfoldable pub darkside_getaddressutxos : List (List ℕ) → List Utxo → List Utxo
darkside_getaddressutxos addresses [] = []
darkside_getaddressutxos addresses (utxo ∷ utxos) =
    let rest = darkside_getaddressutxos addresses utxos in
    if is_one_of utxo.address addresses then utxo ∷ rest else rest

-- `DarksideAddAddressUtxo` and `DarksideClearAddressUtxos`
abbrev pub add_address_utxo : Utxo → Darkside → Darkside
add_address_utxo utxo d = record d { address_utxos = d.address_utxos ++ utxo ∷ [] }

abbrev pub clear_address_utxos : Darkside → Darkside
clear_address_utxos d = record d { address_utxos = [] }
