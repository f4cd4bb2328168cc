-- ===== src/Lru.antt =====
-- The cache of src/cache/LRUCache.cc and include/cache/LRUCache.h. `_lru` is a list of cells,
-- each with the iterator that denotes it; `_umap` maps a key to an iterator. An iterator that
-- denotes no cell is undefined behaviour, `none`. `_capacity` is taken not to be negative.
pub mod Cells
pub mod Invariant
pub mod Refinement
pub mod Puts
pub mod Reversal
pub mod Contents
pub mod Map
mod Runs
pub mod File
pub mod Sync
use simple_search_enginer.Prelude.{
  ℕ, zero, suc, ◌+◌, ◌≡◌, Bool, true, false, Option, none, some, List, [], ◌∷◌, Bytes,
  Bytes_discrete, ℕ_discrete, ite, lookup, assign, erase, length, ltb, if◌then◌else◌, ◌>>=◌,
}

-- A list element: its iterator, and the fields of the `CacheNode` that it owns.
pub record Cell : Type 0 where
  pub iter : ℕ
  pub key : Bytes
  pub value : List Bytes

pub record LruCache : Type 0 where
  pub umap : List (Bytes × ℕ)
  pub lru : List Cell
  pub pending : List (Bytes × List Bytes)
  pub capacity : ℕ
  pub is_updating : Bool
  pub next_iter : ℕ

unfoldable pub init : ℕ → LruCache
init capacity = record {
  umap = [];
  lru = [];
  pending = [];
  capacity = capacity;
  is_updating = false;
  next_iter = 0;
}

-- `*it`
pub find_cell : ℕ → List Cell → Option Cell
find_cell i [] = none
find_cell i (c ∷ cs) = ite (ℕ_discrete c.iter i) (some c) (find_cell i cs)

pub remove_cell : ℕ → List Cell → List Cell
remove_cell i [] = []
remove_cell i (c ∷ cs) = ite (ℕ_discrete c.iter i) cs (c ∷ remove_cell i cs)

-- `_lru.splice(_lru.begin(), _lru, it)`
pub splice_front : ℕ → List Cell → Option (List Cell)
splice_front i cs = do c ← find_cell i cs; some (c ∷ remove_cell i cs)

-- `(*it)->value = value`
pub write_cell : ℕ → List Bytes → List Cell → Option (List Cell)
write_cell i v [] = none
write_cell i v (c ∷ cs) =
    let rest = write_cell i v cs >>= λ r. some (c ∷ r) in
    ite (ℕ_discrete c.iter i) (some (record c { value = v } ∷ cs)) rest

pub front : List Cell → Option Cell
front [] = none
front (c ∷ cs) = some c

pub back : List Cell → Option Cell
back [] = none
back (c ∷ []) = some c
back (c ∷ d ∷ cs) = back (d ∷ cs)

pub pop_back : List Cell → List Cell
pop_back [] = []
pop_back (c ∷ []) = []
pop_back (c ∷ d ∷ cs) = c ∷ pop_back (d ∷ cs)

-- A hit moves the cell to the front; the value is read through the iterator.
unfoldable pub get : LruCache → Bytes → Option (LruCache × Option (List Bytes))
get c key = elim (lookup Bytes_discrete key c.umap) [
  | some it ↦ do
    lru ← splice_front it c.lru
    cell ← find_cell it lru
    some (record c { lru = lru }, some cell.value)
  | none ↦ some (c, none)
]

-- `if (_umap.size() > _capacity)`: the last cell goes, from both containers.
pub evict : LruCache → Option LruCache
evict c =
    if ltb c.capacity (length c.umap)
    then back c.lru >>= (λ last.
      some (record c { umap = erase Bytes_discrete last.key c.umap; lru = pop_back c.lru }))
    else some c

-- `put` on a key that is there: no entry in the pending list.
pub put_old : LruCache → Bytes → List Bytes → ℕ → Option LruCache
put_old c key value it = do
  spliced ← splice_front it c.lru
  lru ← write_cell it value spliced
  first ← front lru
  some (record c { lru = lru; umap = assign Bytes_discrete key first.iter c.umap })

pub put_new : LruCache → Bytes → List Bytes → Option LruCache
put_new c key value = do
  c' ← evict (record c {
    lru = record { iter = c.next_iter; key = key; value = value } ∷ c.lru;
    umap = assign Bytes_discrete key c.next_iter c.umap;
    next_iter = suc c.next_iter;
  })
  some (record c' { pending = (key, value) ∷ c'.pending })

unfoldable pub put : LruCache → Bytes → List Bytes → Option LruCache
unfolding put_old put_new evict
put c key value = elim (lookup Bytes_discrete key c.umap) [
  | some it ↦ put_old c key value it
  | none ↦ put_new c key value
]

-- `put` of each pair in order, as the loops of the file and of the two updates do.
unfoldable pub put_all : LruCache → List (Bytes × List Bytes) → Option LruCache
put_all c [] = some c
put_all c ((k, v) ∷ es) = do c' ← put c k v; put_all c' es
