-- ===== src/NodeInfo/Defs.antt =====
-- common/common.go: `GetLightdInfo` on the node's replies to `getinfo` and `getblockchaininfo`: an
-- error's text, or the decoded result, if it could be decoded. Texts are lists of codes; the texts
-- that the build fills in are parameters.
use lightwalletd.Common.{
  ℕ, List, [], ◌∷◌, Bool, Option, none, some, Result, ok, err, true, if◌then◌else◌,
}
use lightwalletd.Common.Int.{ℤ, pos, to_uint64}
use lightwalletd.Common.Text.{codes}
use lightwalletd.BlockCache.{same_bytes}

-- `Upgrades` lists each branch id with its `ActivationHeight`.
pub record ReplyGetblockchaininfo : Type 0 where
  pub chain : List ℕ
  pub upgrades : List (List ℕ × ℤ)
  pub blocks : ℤ
  pub chaintip : List ℕ
  pub estimated_height : ℤ

pub record ReplyGetinfo : Type 0 where
  pub build : List ℕ
  pub subversion : List ℕ

pub record BuildTexts : Type 0 where
  pub version : List ℕ
  pub git_commit : List ℕ
  pub branch : List ℕ
  pub build_date : List ℕ
  pub build_user : List ℕ

pub record LightdInfo : Type 0 where
  pub texts : BuildTexts
  pub vendor : List ℕ
  pub taddr_support : Bool
  pub chain_name : List ℕ
  pub sapling_activation_height : ℕ
  pub consensus_branch_id : List ℕ
  pub block_height : ℕ
  pub estimated_height : ℕ
  pub zcashd_build : List ℕ
  pub zcashd_subversion : List ℕ

-- The height of the upgrade with the branch id of Sapling, or 0.
unfoldable pub sapling_height : List (List ℕ × ℤ) → ℤ
sapling_height [] = pos 0
sapling_height ((id, height) ∷ upgrades) =
    let rest = sapling_height upgrades in if same_bytes id (codes "76b809bb") then height else rest

module _ (texts : BuildTexts) (darkside_enabled : Bool) where
  unfoldable pub lightd_info : ReplyGetinfo → ReplyGetblockchaininfo → LightdInfo
  unfolding sapling_height
  lightd_info info chain = record {
    texts = texts;
    vendor = if darkside_enabled then codes "ECC DarksideWalletD" else codes "ECC LightWalletD";
    taddr_support = true;
    chain_name = chain.chain;
    sapling_activation_height = to_uint64 (sapling_height chain.upgrades);
    consensus_branch_id = chain.chaintip;
    block_height = to_uint64 chain.blocks;
    estimated_height = to_uint64 chain.estimated_height;
    zcashd_build = info.build;
    zcashd_subversion = info.subversion;
  }

  -- The result and the error that are returned, nil or not. `rpcErr` is what is returned on a result
  -- that could not be decoded, and is nil there.
  abbrev pub with_chain :
      ReplyGetinfo
      → Result (List ℕ) (Option ReplyGetblockchaininfo)
      → Option LightdInfo × Option (List ℕ)
  with_chain info (err e) = (none, some e)
  with_chain info (ok none) = (none, none)
  with_chain info (ok (some chain)) = (some (lightd_info info chain), none)

  unfoldable pub get_lightd_info :
      Result (List ℕ) (Option ReplyGetinfo)
      → Result (List ℕ) (Option ReplyGetblockchaininfo)
      → Option LightdInfo × Option (List ℕ)
  unfolding lightd_info
  get_lightd_info (err e) chain = (none, some e)
  get_lightd_info (ok none) chain = (none, none)
  get_lightd_info (ok (some info)) chain = with_chain info chain
