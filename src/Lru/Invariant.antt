-- ===== src/Lru/Invariant.antt =====
-- The state of src/cache/LRUCache.cc seen from outside, and its well-formedness.
use simple_search_enginer.Prelude.{
  ℕ, ◌≤◌, ◌<◌, ◌≡◌, refl, Bool, Option, List, ◌∷◌, arith, Bytes, Bytes_discrete, lookup, erase,
  Distinct, length, All, take,
}
use mathlib.Core.Option
use simple_search_enginer.Lru.{Cell, LruCache, init}
use simple_search_enginer.Lru.Cells.{IsProper, find_key, entries}

-- What a cache promises: entries, most recent first, and the entries not yet merged.
pub record View : Type 0 where
  pub entries : List (Bytes × List Bytes)
  pub pending : List (Bytes × List Bytes)
  pub capacity : ℕ
  pub is_updating : Bool

abbrev pub view : LruCache → View
view c = record {
  entries = entries c.lru;
  pending = c.pending;
  capacity = c.capacity;
  is_updating = c.is_updating;
}

-- `_umap` and `_lru` mirror one another, and no iterator dangles.
pub record IsLinked (c : LruCache) : Type 0 where
  pub proper : IsProper c.lru
  pub fresh : All (λ (x : Cell). x.iter < c.next_iter) c.lru
  pub agree :
      (k : Bytes) → lookup Bytes_discrete k c.umap ≡ Option.map (λ x. x.iter) (find_key k c.lru)
  pub unique : Distinct Bytes_discrete c.umap
  pub size : length c.umap ≡ length c.lru

-- It is also within its bound.
pub record IsValid (c : LruCache) : Type 0 where
  pub linked : IsLinked c
  pub open linked use *
  pub bounded : length c.lru ≤ c.capacity

pub init-IsValid : (n : ℕ) → IsValid (init n)
unfolding init find_key
init-IsValid n = record {
  linked = record { proper = tt; fresh = tt; agree = λ k. refl; unique = tt; size = refl };
  bounded = omega arith;
}

-- The abstract operations: a use moves the entry to the front, and what does not fit goes.
unfoldable pub touched : Bytes → List Bytes → List (Bytes × List Bytes) → List (Bytes × List Bytes)
touched k v es = (k, v) ∷ erase Bytes_discrete k es

unfoldable pub used : Bytes → View → View
unfolding touched
used k w = elim (lookup Bytes_discrete k w.entries) [
  | Option.none ↦ w
  | Option.some v ↦ record w { entries = touched k v w.entries }
]

-- A pair that is new is also pending.
unfoldable pub stored : Bytes → List Bytes → View → View
unfolding touched
stored k v w = record w {
  entries = take w.capacity (touched k v w.entries);
  pending = elim (lookup Bytes_discrete k w.entries) [
    | Option.none ↦ (k, v) ∷ w.pending
    | Option.some old ↦ w.pending
  ];
}
