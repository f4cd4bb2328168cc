-- ===== src/Lru/Runs.antt =====
-- Tests of the model of src/cache/LRUCache.cc, and its theorems at concrete caches.
use simple_search_enginer.Prelude.{
  ◌≡◌, refl, false, some, [], ◌∷◌, reverse, arith, Bytes, Bytes_discrete, ℕ_discrete, assign, erase,
  lookup,
}
use simple_search_enginer.Lru.{LruCache, find_cell, init, get, put, put_all}
use simple_search_enginer.Lru.Cells.{find_key}
use simple_search_enginer.Lru.File.{write_to_file, read_from_file}
use simple_search_enginer.Lru.File.RoundTrip
use simple_search_enginer.Lru.Invariant.{view, IsValid, stored}
use simple_search_enginer.Lru.Map
use simple_search_enginer.Lru.Map.{contents, remember, find}
use simple_search_enginer.Lru.Puts

abbrev key_a : Bytes
key_a = 97 ∷ []

abbrev key_b : Bytes
key_b = 98 ∷ []

abbrev key_c : Bytes
key_c = 99 ∷ []

-- Capacity 2; "b" was put after "a".
abbrev two_entries : LruCache
two_entries = record {
  umap = (key_a, 0) ∷ (key_b, 1) ∷ [];
  lru =
      record { iter = 1; key = key_b; value = key_b ∷ key_c ∷ [] }
      ∷ record { iter = 0; key = key_a; value = key_a ∷ [] }
      ∷ [];
  pending = (key_b, key_b ∷ key_c ∷ []) ∷ (key_a, key_a ∷ []) ∷ [];
  capacity = 2;
  is_updating = false;
  next_iter = 2;
}

program : Unit {0}
unfolding assign erase get put put_all init ℕ_discrete Bytes_discrete read_from_file write_to_file
program = tt

two_puts :
    put_all (init 2) ((key_a, key_a ∷ []) ∷ (key_b, key_b ∷ key_c ∷ []) ∷ []) ≡ some two_entries
unfolding program
two_puts = refl

two_entries-IsValid : IsValid two_entries
unfolding find_key find_cell ℕ_discrete Bytes_discrete
two_entries-IsValid = record {
  linked = record {
    proper = ground arith;
    fresh = omega arith;
    agree = λ k. ground arith;
    unique = ground arith;
    size = refl;
  };
  bounded = omega arith;
}

put-stored_example :
    (c' : LruCache) × (put two_entries key_c [] ≡ some c')
    × IsValid c'
    × (view c' ≡ stored key_c [] (view two_entries))
put-stored_example = Puts.put-stored two_entries key_c [] two_entries-IsValid

-- The least recent key goes.
put_evicts :
    (stored key_c [] (view two_entries)).entries ≡ (key_c, []) ∷ (key_b, key_b ∷ key_c ∷ []) ∷ []
unfolding stored program
put_evicts = refl

read_from_file-write_to_file_example :
    (c' : LruCache) × (read_from_file (init 5) (write_to_file two_entries) ≡ some c')
    × IsValid c'
    × ((view c').entries ≡ reverse (view two_entries).entries)
    × ((view c').pending ≡ reverse (view two_entries).entries)
    × ((k : Bytes)
        → lookup Bytes_discrete k (view c').entries
          ≡ lookup Bytes_discrete k (view two_entries).entries)
read_from_file-write_to_file_example =
    RoundTrip.read_from_file-write_to_file two_entries 5 two_entries-IsValid (omega arith)
      (omega arith)

-- Newlines are told apart by their number: "b:b c \na:a \n".
file_bytes :
    write_to_file two_entries ≡ 98 ∷ 58 ∷ 98 ∷ 32 ∷ 99 ∷ 32 ∷ 10 ∷ 97 ∷ 58 ∷ 97 ∷ 32 ∷ 10 ∷ []
unfolding write_to_file
file_bytes = refl

-- Capacity 3, with one entry.
abbrev one_entry : LruCache
one_entry = record {
  umap = (key_a, 0) ∷ [];
  lru = record { iter = 0; key = key_a; value = key_a ∷ [] } ∷ [];
  pending = [];
  capacity = 3;
  is_updating = false;
  next_iter = 1;
}

one_entry-IsValid : IsValid one_entry
unfolding find_key find_cell ℕ_discrete Bytes_discrete
one_entry-IsValid = record {
  linked = record {
    proper = ground arith;
    fresh = omega arith;
    agree = λ k. ground arith;
    unique = ground arith;
    size = refl;
  };
  bounded = omega arith;
}

put-get_example :
    (c' : LruCache) × (c'' : LruCache) × (put one_entry key_b (key_c ∷ []) ≡ some c')
    × (get c' key_a ≡ some (c'', some (key_a ∷ [])))
    × (contents c'' ≡ remember key_b (key_c ∷ []) (contents one_entry))
unfolding Bytes_discrete ℕ_discrete find
put-get_example = Map.put-get one_entry key_b key_a (key_c ∷ []) one_entry-IsValid (omega arith)
