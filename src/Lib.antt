-- ===== src/Lib.antt =====
-- lightwalletd: a verification of the server's parsers, its block cache and ingestor, and its guards of
-- fees, calls and addresses.
--
-- The server reads blocks from a node, keeps them in compact form in a cache on disk, and answers
-- light wallets. Modelled are these parts, from the bytes up.
--
-- * Bytestring models parser/internal/bytestring/bytestring.go: each method of `String` is a scanner
--   (Scan), a function from the bytes to a result and the bytes that are left. A `Read` fails without
--   a message, a `Scan Error` with one.
-- * Buffer, CompactSize and Header model parser/block_header.go: `bytes.Buffer` over the slice that
--   `MarshalBinary` returns, the CompactSize writers, the header, its parser and its hashes.
-- * Transaction models parser/transaction.go: Defs has the parts and their parsers, Whole the
--   transaction, `ParseFromSlice`, the hashes and the compact form.
-- * Block models parser/block.go; Reverse models parser/util.go.
-- * Fee models parser/fee.go (Defs) and frontend/sendfee.go (Decimal has `zatFromDecimal`, Send has
--   `computeFee`, the fee ceiling and `highFeeVerdict`).
-- * BlockCache models common/cache.go: Defs has the state (the two files as their bytes, the index
--   `starts`, the heights and the latest hash), `readBlock`, `setDbFiles` up to `setLatestHash`, and
--   `setLatestHash`; Operations has `NewBlockCache`, `Add`, `Reorg`, `Get` and `Reset`.
-- * Yellowback models common/yellowback.go: Methods has the lists of methods, Calls has
--   `ProbeYellowback` and `CallYed`.
-- * YedCache models common/yedcache.go: the bounded map of answers, its eviction, and the lookups.
-- * Fetch, Ingestor, BlockRange, FirstRpc and NodeInfo model common/common.go: `getBlockFromRPC`,
--   `BlockIngestor`, `GetBlock` with `GetBlockRange`, `FirstRPC` and `GetLightdInfo`. Each Defs has the
--   code, on the node's replies. A round of the ingestor's loop is a step of the variables that it
--   keeps; a range meets, at each of its heights, a cache and a reply of that time.
-- * Darkside models common/darkside.go, the mock node: Defs has its state and the staging, Apply
--   `DarksideApplyStaged` and `setPrevhash`, Requests `darksideRawRequest`.
-- * Mempool models `MempoolFilter` and Submit `SendTransaction` of frontend/service.go.
-- * RateLimit models frontend/yellowback_ratelimit.go: Defs has the token buckets, PeerKey whom a call
--   is counted for, and the gate.
-- * Address models frontend/yellowback_addr.go, and of frontend/service.go the checks of addresses.
-- * Common has the shared lists, tests, integers, results and texts.
--
-- The parser of a block calls those of the header and of the transactions; the cache keeps compact
-- blocks, as Block makes them, and the ingestor fills it with those that Fetch takes from the node's
-- replies, or from the mock node's; a range reads them from the cache or from a reply. The fee verdict
-- parses the transaction that was sent.
--
-- Integers. An unsigned word is a natural number with its wrap-around written out, `int64` is `ℤ` of
-- Common.Int with `wrap64`. A length and a height are natural numbers. A slice that is nil is the
-- empty list, but for the cached hashes, which are options.
--
-- Fuel. `reverse_loop` has the length of the slice, `evict` more than the entries there are.
-- `set_latest_hash` calls itself through `recoverFromCorruption`, each time on fewer blocks, so that
-- fuel past the number of blocks is enough; for `new_block_cache` fuel past the bytes of the lengths
-- file is. `BlockIngestor` hands the fuel of its cache on, and its own rounds are counted. `decimal`
-- has more than the digits there are.
--
-- Parameters. SHA-256 is a function on bytes. The protocol buffer library is `marshal` and
-- `unmarshal`. The node is what it answers: yed_getinfo decoded, gettxout's value as text, an RPC's
-- result or error. What `CallYed` waits for is a part of each request, and its read cache is an
-- interface. The rate limiter's `float64` operations are an interface with laws of rounded arithmetic,
-- and its clock is the time of each call; addresses and networks of the network library, and base58,
-- are functions. Calls of the file system succeed; FNV-1a is modelled, not assumed.
--
-- Not modelled: `parseNBits`, which nothing calls; the gRPC handlers, but for what is named above, as
-- they mostly decode JSON; `StageBlocksCreate`, and `getrawmempool` and `getrawtransaction` of the mock
-- node; locks and goroutines, whose critical sections are single steps; logging and start-up;
-- generated and vendored code.
pub mod Common
pub mod Scan
pub mod Bytestring
pub mod Buffer
pub mod CompactSize
pub mod Reverse
pub mod Header
pub mod Transaction
pub mod Block
pub mod Fee
pub mod BlockCache
pub mod Fetch
pub mod Ingestor
pub mod BlockRange
pub mod FirstRpc
pub mod NodeInfo
pub mod Yellowback
pub mod YedCache
pub mod RateLimit
pub mod Address
pub mod Mempool
pub mod Darkside
pub mod Submit
