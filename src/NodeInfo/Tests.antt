-- ===== src/NodeInfo/Tests.antt =====
-- A reply that cannot be decoded, and the theorem at it.
use lightwalletd.Common.{ℕ, List, [], ◌≡◌, ◌↔◌, ◌⊎◌, false, Option, none, some, Result, ok}
use lightwalletd.Common.Text.{codes}
use lightwalletd.NodeInfo.Defs.{BuildTexts, ReplyGetinfo, ReplyGetblockchaininfo, get_lightd_info}
use lightwalletd.NodeInfo.Replied.{IsDecoded, IsUndecoded, get_lightd_info_nil}

abbrev texts : BuildTexts
texts = record {
  version = codes "v0.0.0.0-dev";
  git_commit = [];
  branch = [];
  build_date = [];
  build_user = [];
}

abbrev info : ReplyGetinfo
info = record { build = codes "v4.0.0"; subversion = codes "/MagicBean:4.0.0/" }

abbrev undecoded : Result (List ℕ) (Option ReplyGetblockchaininfo)
undecoded = ok none

get_lightd_info_nil_example :
    (get_lightd_info texts false (ok (some info)) undecoded ≡ (none, none))
    ↔ (IsUndecoded (ok (some info)) ⊎ (IsDecoded (ok (some info)) × IsUndecoded undecoded))
get_lightd_info_nil_example = get_lightd_info_nil texts false (ok (some info)) undecoded
