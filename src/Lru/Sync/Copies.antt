-- ===== src/Lru/Sync/Copies.antt =====
-- What the two updates of src/cache/LRUCache.cc leave in the caches.
use simple_search_enginer.Prelude.{
  ◌≤◌, ◌≡◌, refl, ap, ◌∙◌, some, List, [], ◌∷◌, reverse, arith, Bytes, Bytes_discrete, lookup,
  length, Distinct, ◌+◌, ◌++◌,
}
use mathlib.Core.List.{append-nil}
use simple_search_enginer.Lru.{LruCache}
use simple_search_enginer.Lru.Cells.{entries, find_key}
use simple_search_enginer.Lru.Invariant.{View, view, IsValid, stored}
use simple_search_enginer.Lru.Puts.{put-stored, put_all-stored_all, stored_all, relink}
use simple_search_enginer.Lru.Reversal.{
  Entry, Absent, Absent-nil, Absent-next, entries-Distinct, stored_new, reverse_cons_append,
  lookup-reverse,
}
use simple_search_enginer.Lru.Sync.{refill, update_p2m, update_m2m}

-- `updateP2M` on a valid cache never faults, keeps it valid, stores the pending pairs of the
-- other cache in it, newest first, and takes nothing but these pairs from the other.
pub update_p2m-stored_all :
    (this other : LruCache)
    → IsValid this
    → IsValid other
    → (this' : LruCache) × (other' : LruCache) × (update_p2m this other ≡ some (this', other'))
      × IsValid this'
      × IsValid other'
      × (view this' ≡ stored_all (view other).pending (view this))
      × (view other' ≡ record (view other) { pending = [] })
unfolding update_p2m
update_p2m-stored_all this other valid valid_other =
    let (this', ran, valid', seen) = put_all-stored_all this other.pending valid in
    (
      this',
      record other { pending = [] },
      rw ran,
      valid',
      record { linked = relink other [] valid_other.linked; bounded = valid_other.bounded },
      seen,
      refl,
    )

-- The loop of `updateM2M` on views.
unfoldable pub refilled : List (Bytes × List Bytes) → View → View
refilled [] w = w
refilled ((k, v) ∷ es) w = refilled es (record (stored k v w) { pending = [] })

pub refill-refilled :
    (c : LruCache) (es : List (Bytes × List Bytes))
    → IsValid c
    → (c' : LruCache) × (refill c es ≡ some c') × IsValid c' × (view c' ≡ refilled es (view c))
unfolding refill refilled
refill-refilled c [] valid = (c, refl, valid, refl)
refill-refilled c ((k, v) ∷ es) valid =
    let (c', put_ok, valid', seen) = put-stored c k v valid in
    let cleared : IsValid (record c' { pending = [] }) = record {
      linked = relink c' [] valid'.linked;
      bounded = valid'.bounded;
    } in
    let (c'', ran, valid'', seen') = refill-refilled (record c' { pending = [] }) es cleared in
    (
      c'',
      rw put_ok ran,
      valid'',
      seen' ∙ ap (λ (w : View). refilled es (record w { pending = [] })) seen,
    )

-- A pending list that is cleared in each round of a loop over `es`.
abbrev pub cleared_if_any : List Entry → List Entry → List Entry
cleared_if_any [] pending = pending
cleared_if_any (e ∷ es) pending = []

pub cleared_nil : (es : List Entry) → cleared_if_any es [] ≡ []
cleared_nil [] = refl
cleared_nil (e ∷ es) = refl

refilled-reverse :
    (es : List Entry) (w : View)
    → Absent es w.entries
    → Distinct Bytes_discrete es
    → length es + length w.entries ≤ w.capacity
    → refilled es w
      ≡ record w { entries = reverse es ++ w.entries; pending = cleared_if_any es w.pending }
unfolding refilled
refilled-reverse [] w new d room = refl
refilled-reverse ((k, v) ∷ es) w new d room =
    ap (λ (u : View). refilled es (record u { pending = [] }))
      (stored_new k v w new.0 (omega arith))
    ∙ refilled-reverse es _ (Absent-next k v es w.entries d new) d.1 (omega arith)
    ∙ ground (arith, reverse_cons_append (k, v) es w.entries, cleared_nil es)

emptied-IsValid : (c : LruCache) → IsValid (record c { lru = []; umap = [] })
unfolding find_key
emptied-IsValid c = record {
  linked = record { proper = tt; fresh = tt; agree = λ k. refl; unique = tt; size = refl };
  bounded = omega arith;
}

-- `updateM2M` between caches where the other's entries fit: the target then finds just what the
-- other finds, in the reverse order of use. It keeps its own flag and capacity, and its pending
-- list is cleared unless the other cache is empty.
pub update_m2m-reverse :
    (this other : LruCache)
    → IsValid other
    → length (view other).entries ≤ this.capacity
    → (this' : LruCache) × (update_m2m this other ≡ some this')
      × IsValid this'
      × (view this' ≡ record (view this) {
        entries = reverse (view other).entries;
        pending = cleared_if_any (view other).entries this.pending;
      })
      × ((k : Bytes)
          → lookup Bytes_discrete k (view this').entries
            ≡ lookup Bytes_discrete k (view other).entries)
unfolding update_m2m
update_m2m-reverse this other valid room =
    let es = entries other.lru in
    let distinct = entries-Distinct other.lru valid.proper in
    let start = record this { lru = []; umap = [] } in
    let (this', ran, valid', seen) = refill-refilled start es (emptied-IsValid this) in
    let kept = seen ∙ refilled-reverse es (view start) (Absent-nil es) distinct (omega arith) in
    (
      this',
      ran,
      valid',
      kept ∙ ground (arith, append-nil (reverse es)),
      λ k.
          ap (λ (w : View). lookup Bytes_discrete k w.entries) kept
          ∙ ap (lookup Bytes_discrete k) (append-nil (reverse es))
          ∙ lookup-reverse k es distinct,
    )
