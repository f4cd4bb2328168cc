-- ===== src/Manager.antt =====
-- The caches of src/cache/CacheManager.cc: one main cache at index 0 and the copies that the
-- threads use. Each round of `updateCache` raises the flags of the two caches that it works on.
pub mod Rounds
pub mod Update
pub mod Flags
pub mod Actions
use simple_search_enginer.Prelude.{
  ℕ, zero, suc, ◌+◌, ◌-◌, Bool, true, false, Option, none, some, List, [], ◌∷◌, Bytes, get_elem?,
  set, length, replicate, ◌>>=◌,
}
use simple_search_enginer.Lru
use simple_search_enginer.Lru.{LruCache}
use simple_search_enginer.Lru.File.{write_to_file, read_from_file}
use simple_search_enginer.Lru.Sync.{update_p2m, update_m2m}

-- `init`: eight caches of capacity 10000; the first reads the cache file.
unfoldable pub init : Bytes → Option (List LruCache)
init text = do
  main ← read_from_file (Lru.init 10000) text
  some (main ∷ replicate 7 (Lru.init 10000))

-- `_caches[idx]`; an index out of range is undefined behaviour.
unfoldable pub get_cache : List LruCache → ℕ → Option LruCache
get_cache caches idx = get_elem? caches idx

-- `_caches[i]._isUpdating = b`
unfoldable pub set_updating : Bool → ℕ → List LruCache → Option (List LruCache)
set_updating b i caches = do
  c ← get_elem? caches i
  some (set caches i (record c { is_updating = b }))

-- The flags of the main cache and of cache `i`.
unfoldable pub set_both : Bool → ℕ → List LruCache → Option (List LruCache)
unfolding set_updating
set_both b i caches = do cs ← set_updating b 0 caches; set_updating b i cs

-- `_caches[0].updateP2M(_caches[i])`
unfoldable pub merge_into : ℕ → List LruCache → Option (List LruCache)
merge_into i cs = do
  main ← get_elem? cs 0
  other ← get_elem? cs i
  (main', other') ← update_p2m main other
  some (set (set cs 0 main') i other')

-- `_caches[i].updateM2M(_caches[0])`
unfoldable pub copy_out : ℕ → List LruCache → Option (List LruCache)
copy_out i cs = do
  main ← get_elem? cs 0
  other ← get_elem? cs i
  other' ← update_m2m other main
  some (set cs i other')

-- One round of the first loop of `updateCache`.
unfoldable pub merge_round : ℕ → List LruCache → Option (List LruCache)
unfolding merge_into
merge_round i caches = do cs ← set_both true i caches; cs' ← merge_into i cs; set_both false i cs'

-- One round of the second loop.
unfoldable pub copy_round : ℕ → List LruCache → Option (List LruCache)
unfolding copy_out
copy_round i caches = do cs ← set_both true i caches; cs' ← copy_out i cs; set_both false i cs'

-- `for (int i = 1; i < _caches.size(); ++i)`, with the rounds left.
unfoldable pub rounds :
    (ℕ → List LruCache → Option (List LruCache)) → ℕ → ℕ → List LruCache → Option (List LruCache)
rounds round zero i caches = some caches
rounds round (suc n) i caches = do cs ← round i caches; rounds round n (suc i) cs

-- The caches afterwards, and the file that the main cache is written to in between.
unfoldable pub update_cache : List LruCache → Option (List LruCache × Bytes)
update_cache caches = do
  merged ← rounds merge_round (length caches - 1) 1 caches
  main ← get_elem? merged 0
  copied ← rounds copy_round (length merged - 1) 1 merged
  some (copied, write_to_file main)
