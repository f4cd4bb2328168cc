-- ===== src/Manager/Update.antt =====
-- `updateCache` of src/cache/CacheManager.cc as a whole.
use simple_search_enginer.Prelude.{
  ℕ, ◌≤◌, ◌≡◌, refl, sym, ap, ◌∙◌, Bool, true, false, some, List, [], ◌∷◌, ◌++◌, map, reverse,
  arith, Bytes, Bytes_discrete, lookup, length, length-map, All, All-map,
}
use simple_search_enginer.Lru.{LruCache}
use simple_search_enginer.Lru.Cells.{length-entries}
use simple_search_enginer.Lru.File.{write_to_file}
use simple_search_enginer.Lru.Invariant.{View, view, IsValid, stored}
use simple_search_enginer.Lru.Puts.{stored_all}
use simple_search_enginer.Lru.Reversal.{Entry, entries-Distinct, lookup-reverse}
use simple_search_enginer.Lru.Sync.Copies.{cleared_nil}
use simple_search_enginer.Manager.{update_cache, merge_round, copy_round, rounds}
use simple_search_enginer.Manager.Rounds.{merged, taken, copied, merge_rounds, copy_rounds}

-- No round is running, and the caches have one capacity.
pub record IsIdle (n : ℕ) (c : LruCache) : Type 0 where
  pub valid : IsValid c
  pub capacity : c.capacity ≡ n
  pub idle : c.is_updating ≡ false

-- All pending pairs, the first copy's first.
unfoldable pub pendings : List LruCache → List Entry
pendings [] = []
pendings (o ∷ os) = o.pending ++ pendings os

stored-capacity :
    (k : Bytes) (v : List Bytes) (w : View)
    → ((stored k v w).capacity ≡ w.capacity) × ((stored k v w).is_updating ≡ w.is_updating)
unfolding stored
stored-capacity k v w = (refl, refl)

pub stored_all-capacity :
    (es : List Entry) (w : View)
    → ((stored_all es w).capacity ≡ w.capacity) × ((stored_all es w).is_updating ≡ w.is_updating)
unfolding stored_all
stored_all-capacity [] w = (refl, refl)
stored_all-capacity ((k, v) ∷ es) w =
    ground (arith, stored_all-capacity es (stored k v w), stored-capacity k v w)

stored_all-flag :
    (es : List Entry) (w : View) (b : Bool)
    → stored_all es (record w { is_updating = b }) ≡ record (stored_all es w) { is_updating = b }
unfolding stored_all stored
stored_all-flag [] w b = refl
stored_all-flag ((k, v) ∷ es) w b = stored_all-flag es (stored k v w) b

pub stored_all-append :
    (es fs : List Entry) (w : View) → stored_all (es ++ fs) w ≡ stored_all fs (stored_all es w)
unfolding stored_all
stored_all-append [] fs w = refl
stored_all-append ((k, v) ∷ es) fs w = stored_all-append es fs (stored k v w)

-- The rounds of the first loop store all pending pairs in turn.
pub merged-stored_all :
    (os : List LruCache) (w : View)
    → w.is_updating ≡ false
    → merged os w ≡ stored_all (pendings os) w
unfolding merged pendings stored_all
merged-stored_all [] w idle = refl
merged-stored_all (o ∷ os) w idle =
    merged-stored_all os _ refl
    ∙ ap (λ (u : View). stored_all (pendings os) (record u { is_updating = false }))
        (stored_all-flag o.pending w true)
    ∙ ap (stored_all (pendings os)) (ground (arith, idle, stored_all-capacity o.pending w))
    ∙ sym (stored_all-append o.pending (pendings os) w)

-- What the update leaves in a copy, for the view `w` of the main cache.
abbrev pub IsCopyOf : View → LruCache → Type 0
IsCopyOf w c =
    (view c ≡ record w { entries = reverse w.entries; pending = []; is_updating = false })
    × ((k : Bytes) → lookup Bytes_discrete k (view c).entries ≡ lookup Bytes_discrete k w.entries)

copies_lem :
    (n : ℕ) (main : LruCache) (os os' os'' : List LruCache)
    → IsValid main
    → main.capacity ≡ n
    → All (IsIdle n) os
    → map view os' ≡ map taken os
    → map view os'' ≡ map (copied (view main)) os'
    → All (IsCopyOf (view main)) os''
copies_lem n main [] [] [] valid cap idle taken_eq copied_eq = tt
copies_lem n main (o ∷ os) (o' ∷ os') (o'' ∷ os'') valid cap idle taken_eq copied_eq =
    let same : view o'' ≡ record (view main) {
      entries = reverse (view main).entries;
      pending = [];
      is_updating = false;
    } =
      ground (arith, cleared_nil (view main).entries, cap, idle.0, taken_eq, copied_eq) in
    (
      (
        same,
        λ k.
            ap (λ (w : View). lookup Bytes_discrete k w.entries) same
            ∙ lookup-reverse k (view main).entries (entries-Distinct main.lru valid.proper),
      ),
      copies_lem n main os os' os'' valid cap idle.1 (ground arith) (ground arith),
    )
copies_lem n main _ _ _ valid cap idle taken_eq copied_eq = cc

room_lem :
    (n k : ℕ) (os os' : List LruCache)
    → k ≤ n
    → All (IsIdle n) os
    → map view os' ≡ map taken os
    → All (λ (o : LruCache). k ≤ o.capacity) os'
room_lem n k [] [] h idle e = tt
room_lem n k (o ∷ os) [] h idle e = cc
room_lem n k [] (o' ∷ os') h idle e = cc
room_lem n k (o ∷ os) (o' ∷ os') h idle e =
    (ground (arith, idle.0), room_lem n k os os' h idle.1 (ground arith))

runs_lem :
    (main main' : LruCache) (os os' os'' : List LruCache)
    → rounds merge_round (length os) 1 (main ∷ os) ≡ some (main' ∷ os')
    → rounds copy_round (length os') 1 (main' ∷ os') ≡ some (main' ∷ os'')
    → update_cache (main ∷ os) ≡ some (main' ∷ os'', write_to_file main')
unfolding update_cache
runs_lem main main' os os' os'' merge copy = ground (arith, merge, copy)

lengths_lem :
    (w : View) (os os' os'' : List LruCache)
    → map view os' ≡ map taken os
    → map view os'' ≡ map (copied w) os'
    → length os'' ≡ length os
lengths_lem w os os' os'' p q = omega (
  arith,
  ap length p,
  ap length q,
  length-map view os',
  length-map taken os,
  length-map view os'',
  length-map (copied w) os',
)

-- From idle caches of one capacity `updateCache` runs to its end without a fault. The main cache
-- then holds what storing all pending pairs gives, the file is written from it, and each copy
-- finds just what the main cache finds, in the reverse order of use, with nothing pending.
pub update_cache-syncs :
    (n : ℕ) (main : LruCache) (others : List LruCache)
    → IsIdle n main
    → All (IsIdle n) others
    → (main' : LruCache) × (others' : List LruCache) × (update_cache (main ∷ others)
        ≡ some (main' ∷ others', write_to_file main'))
      × IsValid main'
      × All IsValid others'
      × (length others' ≡ length others)
      × (view main' ≡ stored_all (pendings others) (view main))
      × All (IsCopyOf (view main')) others'
update_cache-syncs n main others m os =
    let (main', os', ran, v', vs', seen, seen_os) =
      merge_rounds main [] others m.valid (All-map _ _ others (λ o h. h.valid) os) in
    let stored_eq = seen ∙ merged-stored_all others (view main) m.idle in
    let (cap, flag) = stored_all-capacity (pendings others) (view main) in
    let cap' : main'.capacity ≡ n = ground (arith, stored_eq, cap, m.capacity) in
    let flag' : main'.is_updating ≡ false = ground (arith, stored_eq, flag, m.idle) in
    let room : length (view main').entries ≤ n =
      omega (arith, length-entries main'.lru, v'.bounded, cap') in
    let (os'', ran', ws, seen_os') =
      copy_rounds main' [] os' v' flag'
        (room_lem n (length (view main').entries) others os' room os seen_os) in
    (
      main',
      os'',
      runs_lem main main' others os' os'' ran ran',
      v',
      ws,
      lengths_lem (view main') others os' os'' seen_os seen_os',
      stored_eq,
      copies_lem n main' others os' os'' v' cap' os seen_os seen_os',
    )
