-- ===== src/Lru/Sync.antt =====
-- `updateP2M` and `updateM2M` of src/cache/LRUCache.cc, between two different caches.
pub mod Copies
use simple_search_enginer.Prelude.{Option, some, List, [], ◌∷◌, Bytes, ◌>>=◌}
use simple_search_enginer.Lru.{LruCache, put, put_all}
use simple_search_enginer.Lru.Cells.{entries}

-- The pending entries of `other` are put into `this`; both new states.
unfoldable pub update_p2m : LruCache → LruCache → Option (LruCache × LruCache)
update_p2m this other = do
  this' ← put_all this other.pending
  some (this', record other { pending = [] })

-- The loop of `updateM2M`: the pending list is cleared in each round.
unfoldable pub refill : LruCache → List (Bytes × List Bytes) → Option LruCache
refill c [] = some c
refill c ((k, v) ∷ es) = do c' ← put c k v; refill (record c' { pending = [] }) es

-- `this` is emptied and filled with the entries of `other`, from its most recent on.
unfoldable pub update_m2m : LruCache → LruCache → Option LruCache
unfolding refill
update_m2m this other = refill (record this { lru = []; umap = [] }) (entries other.lru)
