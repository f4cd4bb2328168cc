-- ===== src/Recommender/Runs.antt =====
-- The theorems on the caches (src/cache/CacheManager.cc, src/recommander/KeyRecommander.cc) at
-- concrete caches and a small dictionary.
use simple_search_enginer.Prelude.{
  ℕ, ◌<◌, ◌≡◌, refl, true, Option, some, List, [], ◌∷◌, ◌++◌, arith, Bytes, length, replicate, All,
}
use simple_search_enginer.Lru
use simple_search_enginer.Lru.{LruCache}
use simple_search_enginer.Lru.File.{write_to_file}
use simple_search_enginer.Lru.Invariant.{view, IsValid, init-IsValid}
use simple_search_enginer.Lru.Puts.{stored_all}
use simple_search_enginer.Manager.{update_cache, set_both}
use simple_search_enginer.Manager.Flags.{flag_at}
use simple_search_enginer.Manager.Update
use simple_search_enginer.Manager.Update.{IsIdle, IsCopyOf, pendings}
use simple_search_enginer.Recommender.{Candidates, Outcome, choice, do_query}
use simple_search_enginer.Recommender.Choice
use simple_search_enginer.Recommender.Transparency
use simple_search_enginer.Recommender.Transparency.{IsCoherent}

pub doubling_lem :
    (s : Unit {0}) (k : Bytes) (v : List Bytes)
    → some ((k ++ k) ∷ []) ≡ some v
    → (s' : Unit {0}) × (◌≡◌ {A = Option (Unit {0} × List Bytes)}
        (some (s, (k ++ k) ∷ []))
        (some (s', v)))
      × ((q : Bytes) → some ((q ++ q) ∷ []) ≡ some ((q ++ q) ∷ []))
doubling_lem s k v h = (s, ground arith, λ q. refl)

-- A dictionary that proposes each word twice over, and never changes.
abbrev pub doubling : Candidates
doubling = record {
  State = Unit {0};
  query = λ s k. some (s, (k ++ k) ∷ []);
  answer = λ s k. some ((k ++ k) ∷ []);
  query_lem = doubling_lem;
}

abbrev empty_cache : LruCache
empty_cache = Lru.init 3

abbrev pending_cache : LruCache
pending_cache = record empty_cache { pending = (97 ∷ [], (97 ∷ 97 ∷ []) ∷ []) ∷ [] }

pending_cache-IsValid : IsValid pending_cache
unfolding Lru.init
pending_cache-IsValid = record {
  linked = record {
    proper = (init-IsValid 3).proper;
    fresh = (init-IsValid 3).fresh;
    agree = (init-IsValid 3).agree;
    unique = (init-IsValid 3).unique;
    size = (init-IsValid 3).size;
  };
  bounded = (init-IsValid 3).bounded;
}

pending_cache-IsIdle : IsIdle 3 pending_cache
unfolding Lru.init
pending_cache-IsIdle = record { valid = pending_cache-IsValid; capacity = refl; idle = refl }

empty_cache-IsIdle : IsIdle 3 empty_cache
unfolding Lru.init
empty_cache-IsIdle = record { valid = init-IsValid 3; capacity = refl; idle = refl }

update_cache-syncs_example :
    (main' : LruCache) × (others' : List LruCache) × (update_cache
        (empty_cache ∷ pending_cache ∷ [])
      ≡ some (main' ∷ others', write_to_file main'))
    × IsValid main'
    × All IsValid others'
    × (length others' ≡ 1)
    × (view main' ≡ stored_all (pendings (pending_cache ∷ [])) (view empty_cache))
    × All (IsCopyOf (view main')) others'
update_cache-syncs_example =
    Update.update_cache-syncs 3 empty_cache (pending_cache ∷ []) empty_cache-IsIdle
      (pending_cache-IsIdle, tt)

empty_cache-IsCoherent : IsCoherent doubling tt empty_cache
unfolding Lru.init
empty_cache-IsCoherent = record {
  valid = init-IsValid 3;
  holds = record { entries = tt; pending = tt };
}

pending_cache-IsCoherent : IsCoherent doubling tt pending_cache
unfolding Lru.init
pending_cache-IsCoherent = record {
  valid = pending_cache-IsValid;
  holds = record { entries = tt; pending = (refl, tt) };
}

chosen_own : choice (empty_cache ∷ pending_cache ∷ []) 1 ≡ some 1
unfolding choice Lru.init
chosen_own = refl

do_query-answer_example :
    (o : Outcome doubling) × (do_query doubling tt (empty_cache ∷ pending_cache ∷ []) (98 ∷ []) 1
      ≡ some o)
    × (o.res ≡ (98 ∷ 98 ∷ []) ∷ [])
    × ((q : Bytes) → doubling.answer o.dic q ≡ doubling.answer tt q)
    × All (IsCoherent doubling o.dic) o.caches
    × (length o.caches ≡ 2)
do_query-answer_example =
    Transparency.do_query-answer doubling tt (empty_cache ∷ pending_cache ∷ []) (98 ∷ []) 1 1
      ((98 ∷ 98 ∷ []) ∷ []) (empty_cache-IsCoherent, (pending_cache-IsCoherent, tt)) chosen_own
      (omega arith) refl

-- Thread 0 is sent to the very cache that is being updated.
choice-set_both_example :
    (cs : List LruCache) × (j : ℕ) × (set_both true 4 (replicate 8 empty_cache) ≡ some cs)
    × (choice cs 0 ≡ some j)
    × (j < 8)
    × (flag_at cs j ≡ some true)
unfolding Lru.init
choice-set_both_example =
    Choice.choice-set_both (replicate 8 empty_cache) 4 0 refl
      (refl, (refl, (refl, (refl, (refl, (refl, (refl, (refl, tt)))))))) (omega arith) (omega arith)
      (omega arith)
