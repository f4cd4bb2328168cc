-- ===== src/Recommender/Traces.antt =====
-- Questions and updates that fall between one another (src/recommander/KeyRecommander.cc and
-- src/cache/CacheManager.cc), run on small caches.
use simple_search_enginer.Prelude.{
  ◌≡◌, refl, some, List, [], ◌∷◌, arith, Bytes, map, replicate, All, getlines,
}
use simple_search_enginer.Lru
use simple_search_enginer.Lru.{LruCache}
use simple_search_enginer.Lru.File.{read_from_file, read_line}
use simple_search_enginer.Manager
use simple_search_enginer.Manager.{update_cache}
use simple_search_enginer.Recommender.Starting
use simple_search_enginer.Recommender.Transparency.{IsAnswer}
use simple_search_enginer.Recommender.Runs.{doubling}
use simple_search_enginer.Recommender.Service.{
  Event, Service, question, update, run_events, expected,
}

abbrev eight_caches : List LruCache
eight_caches = replicate 8 (Lru.init 10000)

-- These are the caches at the start, with an empty cache file.
init_empty : Manager.init [] ≡ some eight_caches
unfolding Manager.init read_from_file getlines Lru.put_all
init_empty = refl

-- Two threads ask for the same word, the second in the middle of the first round, when its own
-- cache is being updated.
abbrev mixed : List Event
mixed =
    question 1 (97 ∷ [])
    ∷ update
    ∷ update
    ∷ question 1 (97 ∷ [])
    ∷ update
    ∷ update
    ∷ question 0 (98 ∷ [])
    ∷ []

-- A cache file with the line "a:aa ".
abbrev cache_file : Bytes
cache_file = 97 ∷ 58 ∷ 97 ∷ 97 ∷ 32 ∷ 10 ∷ []

cache_file-IsAnswer : All (IsAnswer doubling tt) (map read_line (getlines cache_file))
unfolding read_line getlines
cache_file-IsAnswer = (refl, tt)

run_events-init_example :
    (caches : List LruCache) × (m : Service doubling) × (Manager.init cache_file ≡ some caches)
    × (run_events doubling
          (record { dic = tt; caches = caches; todo = []; file = cache_file })
          mixed
        ≡ some (m, ((97 ∷ 97 ∷ []) ∷ []) ∷ ((97 ∷ 97 ∷ []) ∷ []) ∷ ((98 ∷ 98 ∷ []) ∷ []) ∷ []))
unfolding expected
run_events-init_example =
    Starting.run_events-init doubling tt cache_file mixed _ cache_file-IsAnswer
      (omega arith, (tt, (tt, (omega arith, (tt, (tt, (omega arith, tt))))))) refl
