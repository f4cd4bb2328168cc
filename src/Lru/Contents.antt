-- ===== src/Lru/Contents.antt =====
-- A property of all entries of a cache (src/cache/LRUCache.cc) through its operations.
use simple_search_enginer.Prelude.{
  Option, none, some, List, [], ◌∷◌, reverse, Bytes, Bytes_discrete, lookup, erase-All, lookup-All,
  All, All-append, All-take, Option-cases,
}
use mathlib.Core.List.{reverse-cons}
use mathlib.Core.Logic.{inl, inr}
use simple_search_enginer.Lru.Invariant.{View, used, stored}
use simple_search_enginer.Lru.Puts.{stored_all}
use simple_search_enginer.Lru.Reversal.{Entry}

module _ (P : Entry → Type 0) where
  -- All entries, and all pending pairs, have the property.
  pub record Holds (w : View) : Type 0 where
    pub entries : All P w.entries
    pub pending : All P w.pending

  pub used-Holds : (k : Bytes) (w : View) → Holds w → Holds (used k w)
  unfolding used
  used-Holds k w h = elim (Option-cases (lookup Bytes_discrete k w.entries)) [
    | inl miss ↦ rw (miss, used) h
    | inr (v, hit) ↦
        rw (hit, used)
          (record {
            entries = (
              lookup-All Bytes_discrete P k v w.entries h.entries hit,
              erase-All Bytes_discrete P k w.entries h.entries,
            );
            pending = h.pending;
          })
  ]

  pub stored-Holds :
      (k : Bytes) (v : List Bytes) (w : View) → P (k, v) → Holds w → Holds (stored k v w)
  unfolding stored
  stored-Holds k v w p h = record {
    entries = All-take P w.capacity _ (p, erase-All Bytes_discrete P k w.entries h.entries);
    pending = new_pending (lookup Bytes_discrete k w.entries);
  }
    where
      new_pending :
          (o : Option (List Bytes))
          → All P (elim o [ none ↦ (k, v) ∷ w.pending | some old ↦ w.pending ])
      new_pending none = (p, h.pending)
      new_pending (some old) = h.pending

  pub stored_all-Holds : (es : List Entry) (w : View) → All P es → Holds w → Holds (stored_all es w)
  unfolding stored_all
  stored_all-Holds [] w ps h = h
  stored_all-Holds ((k, v) ∷ es) w ps h =
      stored_all-Holds es (stored k v w) ps.1 (stored-Holds k v w ps.0 h)

  pub reverse-All : (es : List Entry) → All P es → All P (reverse es)
  reverse-All [] h = tt
  reverse-All (e ∷ es) h =
      rw (reverse-cons e es) (All-append P (reverse es) (e ∷ []) (reverse-All es h.1) (h.0, tt))
