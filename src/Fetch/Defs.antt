-- ===== src/Fetch/Defs.antt =====
-- common/common.go: `getBlockFromRPC` on the node's reply to `getblock`. The reply is the error's
-- text, or the JSON string of the result, if it could be decoded as one; texts are lists of codes.
-- Heights are natural numbers.
use lightwalletd.Common.{
  ℕ, ◌+◌, ◌-◌, ◌*◌, Bool, false, ◌&&◌, List, [], ◌∷◌, Option, none, some, Error, Result, ok, err,
  leb, ◌==◌, if◌then◌else◌,
}
use lightwalletd.Common.Int.{ℤ, pos, negsuc}
use lightwalletd.Common.Text.{codes}
use lightwalletd.Block.{Block, new_block, parse_block, get_height, CompactBlock, to_compact}
use lightwalletd.BlockCache.{Halt, panic, same_bytes}

-- `hex.DecodeString`: an odd length or another character is an error.
abbrev pub hex_value : ℕ → Option ℕ
hex_value c =
    if leb 48 c && leb c 57
    then some (c - 48)
    else if leb 97 c && leb c 102
    then some (c - 87)
    else if leb 65 c && leb c 70
    then some (c - 55)
    else none

abbrev pub hex_byte : Option ℕ → Option ℕ → Option (List ℕ) → Option (List ℕ)
hex_byte none low rest = none
hex_byte (some h) none rest = none
hex_byte (some h) (some l) none = none
hex_byte (some h) (some l) (some bs) = some ((h * 16 + l) ∷ bs)

unfoldable pub decode_string : List ℕ → Option (List ℕ)
decode_string [] = some []
decode_string (c ∷ []) = none
decode_string (c ∷ d ∷ cs) = hex_byte (hex_value c) (hex_value d) (decode_string cs)

-- `strings.Split(s, ":")[0]`
abbrev pub before_colon : List ℕ → List ℕ
before_colon [] = []
before_colon (c ∷ cs) = let rest = before_colon cs in if c == 58 then [] else c ∷ rest

pub data FetchError : Type 0 where
  requesting_block : List ℕ → FetchError
  reading_json : FetchError
  decoding_output : FetchError
  parsing_block : Error → FetchError
  overlong_message : FetchError
  unexpected_height : FetchError

abbrev pub BlockReply : Type 0
BlockReply = Result (List ℕ) (Option (List ℕ))

-- The block, or nil for a height that the node does not have yet.
abbrev pub Fetched : Type 0
Fetched = Result FetchError (Option CompactBlock)

abbrev pub is_at : ℕ → ℤ → Bool
is_at height (pos n) = n == height
is_at height (negsuc n) = false

module _ (sha256 : List ℕ → List ℕ) where
  abbrev pub compacted : Option (CompactBlock × Block) → Result Halt Fetched
  compacted none = err panic
  compacted (some (block, b)) = ok (ok (some block))

  abbrev pub at_height : ℕ → Option (ℤ × Block) → Result Halt Fetched
  at_height height none = err panic
  at_height height (some (h, b)) =
      if is_at height h then compacted (to_compact sha256 b) else ok (err unexpected_height)

  abbrev pub parsed : ℕ → Result Error Block × List ℕ → Result Halt Fetched
  parsed height (err e, rest) = ok (err (parsing_block e))
  parsed height (ok b, []) = at_height height (get_height b)
  parsed height (ok b, c ∷ rest) = ok (err overlong_message)

  abbrev pub decoded : ℕ → Option (List ℕ) → Result Halt Fetched
  decoded height none = ok (err decoding_output)
  decoded height (some block_data) = parsed height (parse_block new_block block_data)

  unfoldable pub get_block_from_rpc : ℕ → BlockReply → Result Halt Fetched
  unfolding get_height to_compact parse_block decode_string
  get_block_from_rpc height (err e) =
      if same_bytes (before_colon e) (codes "-8")
      then ok (ok none)
      else ok (err (requesting_block e))
  get_block_from_rpc height (ok none) = ok (err reading_json)
  get_block_from_rpc height (ok (some block_data_hex)) =
      decoded height (decode_string block_data_hex)
