-- ===== src/Yellowback/Methods.antt =====
-- common/yellowback.go: the node's methods that the service may call, and those that it declines. A
-- map from methods to `true` is the list of its keys, and so is one to reasons.
use Prim.Native.String.{String}
use text.Mathlib.Text.{◌==◌}
use lightwalletd.Common.{List, [], ◌∷◌, Bool, false, ◌||◌}

-- `YedMethods`
abbrev pub yed_methods : List String
yed_methods =
    "yed_getinfo" ∷ "yed_getprice" ∷ "yed_getstats" ∷ "yed_getactivation" ∷ "yed_gettxinfo"
    ∷ "yed_validaterawtransaction" ∷ "yed_decodepayload" ∷ "yed_getvault" ∷ "yed_listvaults"
    ∷ "yed_listclaimable" ∷ "yed_getnotice" ∷ "yed_estimatecollateral" ∷ "yed_estimatefee"
    ∷ "yed_getfeepayee" ∷ "yed_buildbundle" ∷ "yed_getselection" ∷ "yed_getattestations"
    ∷ "yed_listattestors" ∷ "yed_listtokens" ∷ []

-- `StockMethods`
abbrev pub stock_methods : List String
stock_methods = "getblockchaininfo" ∷ []

-- `VaultMethods`
abbrev pub vault_methods : List String
vault_methods = "vault_getinfo" ∷ "set_list" ∷ "set_getinfo" ∷ "vault_list" ∷ []

-- `NotOfferedVault`
abbrev pub not_offered_vault : List String
not_offered_vault =
    "vault_decodescript" ∷ "set_create" ∷ "set_join" ∷ "set_heartbeat" ∷ "set_leave"
    ∷ "set_buildact" ∷ "set_signact" ∷ "set_sendact" ∷ "set_equivocation" ∷ "vault_lock"
    ∷ "vault_getnewowner" ∷ "vault_buildunlock" ∷ "set_signunlock" ∷ "vault_buildcancel"
    ∷ "set_signcancel" ∷ "vault_send" ∷ "vault_release" ∷ "vault_ownerspend" ∷ "vault_app"
    ∷ "vault_refee" ∷ "set_listsigned" ∷ "set_importsigned" ∷ "set_acknowledgerestore" ∷ []

-- `NotOffered`
abbrev pub not_offered : List String
not_offered =
    "yed_getstatehash" ∷ "yed_gethistory" ∷ "yed_getblockverdict" ∷ "yed_gettag" ∷ "yed_listminers"
    ∷ "yed_setquote" ∷ "yed_addattestation" ∷ "yed_signattestation" ∷ "yed_getnewaddress"
    ∷ "yed_listaddresses" ∷ "yed_verifyindex" ∷ "yed_validateaddress" ∷ "yed_getbalance"
    ∷ "yed_listunspent" ∷ "yed_mint" ∷ "yed_send" ∷ "yed_sendmany" ∷ "yed_redeem" ∷ "yed_claim"
    ∷ "yed_claimnotice" ∷ "yed_sweepcarriers" ∷ "yed_registerattestor" ∷ "yed_withdrawbond"
    ∷ "yed_revive" ∷ "yed_reportequivocation" ∷ "yed_listpositions" ∷ "yed_listtransactions"
    ∷ "yed_lockcoins" ∷ "yed_unlockcoin" ∷ "yed_estimatesend" ∷ "yed_buildcancel"
    ∷ "yed_signcancelcosign" ∷ "yed_estimateredeem" ∷ []

abbrev pub has : List String → String → Bool
has [] method = false
has (m ∷ ms) method = (method == m) || has ms method

-- `YedMethods[method] || StockMethods[method] || VaultMethods[method]`
unfoldable pub is_allowed : String → Bool
is_allowed method = has yed_methods method || has stock_methods method || has vault_methods method

unfoldable pub is_declined : String → Bool
is_declined method = has not_offered method || has not_offered_vault method
