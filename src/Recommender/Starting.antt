-- ===== src/Recommender/Starting.antt =====
-- The recommender from its start: `init` of src/cache/CacheManager.cc, then whatever is asked and
-- done.
use simple_search_enginer.Prelude.{
  ℕ, zero, suc, ◌≡◌, refl, sym, ap, ◌∙◌, subst, some, List, [], ◌∷◌, map, Bytes, getlines,
  replicate, All,
}
use simple_search_enginer.Lru
use simple_search_enginer.Lru.{LruCache}
use simple_search_enginer.Lru.Contents.{Holds, stored_all-Holds}
use simple_search_enginer.Lru.File.{read_line, read_from_file}
use simple_search_enginer.Lru.Invariant.{View, view, init-IsValid}
use simple_search_enginer.Lru.Puts.{put_all-stored_all}
use simple_search_enginer.Manager
use simple_search_enginer.Manager.Update.{stored_all-capacity}
use simple_search_enginer.Recommender.{Candidates}
use simple_search_enginer.Recommender.Interleaving.{IsOfPool, run_events-expected}
use simple_search_enginer.Recommender.Keeping.{IsKept, IsServing}
use simple_search_enginer.Recommender.Service.{Event, Service, run_events, expected}
use simple_search_enginer.Recommender.Transparency.{IsAnswer}

module _ (d : Candidates) where
  open d use {State}

  empty-Holds : (s : State) (n : ℕ) → Holds (IsAnswer d s) (view (Lru.init n))
  unfolding Lru.init
  empty-Holds s n = record { entries = tt; pending = tt }

  empty-capacity : (n : ℕ) → (Lru.init n).capacity ≡ n
  unfolding Lru.init
  empty-capacity n = refl

  empty-IsKept : (s : State) (n : ℕ) → IsKept d n s (Lru.init n)
  empty-IsKept s n = record {
    coherent = record { valid = init-IsValid n; holds = empty-Holds s n };
    capacity = empty-capacity n;
  }

  pub replicate-IsKept : (s : State) (n k : ℕ) → All (IsKept d n s) (replicate k (Lru.init n))
  replicate-IsKept s n zero = tt
  replicate-IsKept s n (suc k) = (empty-IsKept s n, replicate-IsKept s n k)

  -- The main cache after the file was read.
  read_from_file-IsKept :
      (s : State) (n : ℕ) (text : Bytes)
      → All (IsAnswer d s) (map read_line (getlines text))
      → (main : LruCache) × (read_from_file (Lru.init n) text ≡ some main) × IsKept d n s main
  unfolding read_from_file
  read_from_file-IsKept s n text answers =
      let es = map read_line (getlines text) in
      let (main, ran, valid, seen) = put_all-stored_all (Lru.init n) es (init-IsValid n) in
      (
        main,
        ran,
        record {
          coherent = record {
            valid = valid;
            holds =
                subst (Holds (IsAnswer d s)) (sym seen) (
                  stored_all-Holds (IsAnswer d s) es (view (Lru.init n)) answers (empty-Holds s n));
          };
          capacity =
              ap (λ (w : View). w.capacity) seen
              ∙ (stored_all-capacity es (view (Lru.init n))).0
              ∙ empty-capacity n;
        },
      )

  -- A cache file whose lines are answers of the dictionary is read by `init`. From there any
  -- sequence of questions of the four threads, for words that the dictionary answers, mixed in any
  -- way with the actions of one `updateCache` after another, is served to its end without a fault,
  -- and the replies are the dictionary's answers in the order of the questions, as if there were
  -- neither caches nor updates.
  pub run_events-init :
      (s : State) (text : Bytes) (es : List Event) (replies : List (List Bytes))
      → All (IsAnswer d s) (map read_line (getlines text))
      → All IsOfPool es
      → expected d s es ≡ some replies
      → (caches : List LruCache) × (m : Service d) × (Manager.init text ≡ some caches)
        × (run_events d (record { dic = s; caches = caches; todo = []; file = text }) es
            ≡ some (m, replies))
  unfolding Manager.init
  run_events-init s text es replies answers pool known =
      let (main, ran, kept) = read_from_file-IsKept s 10000 text answers in
      let caches = main ∷ replicate 7 (Lru.init 10000) in
      let start : Service d = record { dic = s; caches = caches; todo = []; file = text } in
      let serving : IsServing d 10000 start = record {
        kept = (kept, replicate-IsKept s 10000 7);
        count = refl;
        inside = tt;
      } in
      let (m, served, _) = run_events-expected d 10000 start es replies serving pool known in
      (caches, m, rw ran refl, served)
