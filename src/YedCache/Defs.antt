-- ===== src/YedCache/Defs.antt =====
-- common/yedcache.go: the bounded map of the node's answers and the process's cache. `order` has the
-- most recently used entry first, and `items` is the map from a key to its entry there. A key and an
-- answer are lists of character codes. The lock makes each operation one step.
use Prim.Native.String.{String}
use lightwalletd.Common.{
  ℕ, zero, suc, ◌+◌, ◌-◌, List, [], ◌∷◌, ◌++◌, Bool, ◌||◌, Option, none, some, ltb, if◌then◌else◌,
  length,
}
use lightwalletd.Common.Int.{ℤ, pos}
use lightwalletd.Common.Text.{codes}
use lightwalletd.Fee.{encode_to_string}
use lightwalletd.BlockCache.{same_bytes}
use lightwalletd.Yellowback.{has}

-- `YedCacheable`
abbrev pub yed_cacheable : List String
yed_cacheable =
    "yed_getinfo" ∷ "yed_getprice" ∷ "yed_getstats" ∷ "yed_getactivation" ∷ "yed_gettxinfo"
    ∷ "yed_decodepayload" ∷ "yed_getvault" ∷ "yed_listvaults" ∷ "yed_listclaimable"
    ∷ "yed_getnotice" ∷ "yed_estimatecollateral" ∷ "yed_estimatefee" ∷ "yed_getfeepayee"
    ∷ "yed_listtokens" ∷ "getblockchaininfo" ∷ "vault_getinfo" ∷ "set_list" ∷ "set_getinfo"
    ∷ "vault_list" ∷ []

pub record LruEntry : Type 0 where
  pub key : List ℕ
  pub raw : List ℕ

pub record YedLru : Type 0 where
  pub max_entries : ℕ
  pub max_bytes : ℕ
  pub bytes : ℕ
  pub order : List LruEntry

abbrev pub new_yed_lru : ℕ → ℕ → YedLru
new_yed_lru max_entries max_bytes = record {
  max_entries = max_entries;
  max_bytes = max_bytes;
  bytes = 0;
  order = [];
}

-- The answer of a key, and the entries but for that of the key.
abbrev pub find : List ℕ → List LruEntry → Option (List ℕ)
find key [] = none
find key (e ∷ es) = let rest = find key es in if same_bytes key e.key then some e.raw else rest

abbrev pub remove : List ℕ → List LruEntry → List LruEntry
remove key [] = []
remove key (e ∷ es) = let rest = remove key es in if same_bytes key e.key then es else e ∷ rest

-- `MoveToFront` of the key's entry, and `PushFront`: the entry ends up in front.
abbrev pub in_front : List ℕ → List ℕ → List LruEntry → List LruEntry
in_front key raw es = record { key = key; raw = raw } ∷ remove key es

abbrev pub got : YedLru → List ℕ → Option (List ℕ) → Option (List ℕ) × YedLru
got c key none = (none, c)
got c key (some raw) = (some raw, record c { order = in_front key raw c.order })

unfoldable pub lru_get : YedLru → List ℕ → Option (List ℕ) × YedLru
lru_get c key = got c key (find key c.order)

-- The entry's bytes taken back if there is one, and the new answer's counted.
abbrev pub recounted : ℕ → ℕ → Option (List ℕ) → ℕ
recounted bytes more none = bytes + more
recounted bytes more (some old) = (bytes - length old) + more

abbrev pub stored : YedLru → List ℕ → List ℕ → YedLru
stored c key raw = record c {
  bytes = recounted c.bytes (length raw) (find key c.order);
  order = in_front key raw c.order;
}

abbrev pub is_over : YedLru → Bool
is_over c = ltb c.max_entries (length c.order) || ltb c.max_bytes c.bytes

-- The last entry, and those before it.
abbrev pub back : LruEntry → List LruEntry → LruEntry
back e [] = e
back e (f ∷ es) = back f es

abbrev pub front : LruEntry → List LruEntry → List LruEntry
front e [] = []
front e (f ∷ es) = e ∷ front f es

abbrev pub without_back : YedLru → LruEntry → List LruEntry → YedLru
without_back c e es = record c { bytes = c.bytes - length (back e es).raw; order = front e es }

-- The loop that evicts; `none` is a list with no back.
unfoldable pub evict : ℕ → YedLru → List LruEntry → Option YedLru
evict zero c es = none
evict (suc fuel) c [] = if is_over c then none else some c
evict (suc fuel) c (e ∷ es) =
    let rest = evict fuel (without_back c e es) (front e es) in if is_over c then rest else some c

-- Fuel for each entry, and for the one that is put.
unfoldable pub lru_put : YedLru → List ℕ → List ℕ → Option YedLru
unfolding evict
lru_put c key raw =
    let c' = stored c key raw in
    let evicted = evict (suc (length c'.order)) c' c'.order in
    if ltb c.max_bytes (length raw) then some c else evicted

-- `SetYedCache`: `none` is off.
abbrev pub sized : ℤ → ℤ → Option YedLru
sized (pos (suc n)) (pos (suc b)) = some (new_yed_lru (suc n) (suc b))
sized entries bytes = none

unfoldable pub set_yed_cache : ℤ → ℤ → Option YedLru
set_yed_cache entries bytes = sized entries bytes

pub data Outcome : Type 0 where
  hit : Outcome
  miss : Outcome
  bypass : Outcome

abbrev pub lookup_outcome : Option (List ℕ) × YedLru → Option (List ℕ) × (Option YedLru × Outcome)
lookup_outcome (some raw, c) = (some raw, (some c, hit))
lookup_outcome (none, c) = (none, (some c, miss))

unfoldable pub yed_cache_lookup :
    Option YedLru → List ℕ → Option (List ℕ) × (Option YedLru × Outcome)
unfolding lru_get
yed_cache_lookup none key = (none, (none, bypass))
yed_cache_lookup (some c) [] = (none, (some c, bypass))
yed_cache_lookup (some c) (k ∷ key) = lookup_outcome (lru_get c (k ∷ key))

-- Beside a panic, the cache that is left.
abbrev pub kept : Option YedLru → Option (Option YedLru)
kept none = none
kept (some c) = some (some c)

unfoldable pub yed_cache_remember : Option YedLru → List ℕ → List ℕ → Option (Option YedLru)
unfolding lru_put
yed_cache_remember c [] raw = some c
yed_cache_remember none (k ∷ key) raw = some none
yed_cache_remember (some c) (k ∷ key) raw = kept (lru_put c (k ∷ key) raw)

-- The arguments behind the method and the tip, each behind a zero byte; `compact` is what becomes of
-- one: compacted, or as it is if it is no JSON.
abbrev pub joined : (List ℕ → List ℕ) → List (List ℕ) → List ℕ
joined compact [] = []
joined compact (p ∷ ps) = (0 ∷ compact p) ++ joined compact ps

abbrev pub key_at : (List ℕ → List ℕ) → String → List (List ℕ) → List ℕ → List ℕ
key_at compact method params [] = []
key_at compact method params (b ∷ tip) =
    codes method ++ ((0 ∷ encode_to_string (b ∷ tip)) ++ joined compact params)

unfoldable pub yed_cache_key : (List ℕ → List ℕ) → List ℕ → String → List (List ℕ) → List ℕ
yed_cache_key compact tip method params =
    if has yed_cacheable method then key_at compact method params tip else []
