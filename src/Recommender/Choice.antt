-- ===== src/Recommender/Choice.antt =====
-- Which cache a query works on while `updateCache` runs (src/recommander/KeyRecommander.cc and
-- src/cache/CacheManager.cc).
use simple_search_enginer.Prelude.{
  ℕ, ◌+◌, ◌≤◌, ◌<◌, ◌≡◌, ap, ◌∙◌, Bool, true, ◌||◌, if◌then◌else◌, ◌&&◌, some, List, arith, length,
  ◌==◌,
}
use simple_search_enginer.Lru.{LruCache}
use simple_search_enginer.Manager.{set_both}
use simple_search_enginer.Manager.Flags.{flag_at, flag_at-set_both, NoneUpdating}
use simple_search_enginer.Recommender.{choice}

choice_of_flag :
    (caches : List LruCache) (idx : ℕ) (b : Bool)
    → flag_at caches idx ≡ some b
    → choice caches idx ≡ some (idx + (if b then 4 else 0))
unfolding choice flag_at
choice_of_flag caches idx b h = ground arith

which :
    (i idx : ℕ)
    → 1 ≤ i
    → i < 8
    → idx < 4
    → let j = idx + (if idx == 0 || idx == i then 4 else 0) in
      (j == 0 || j == i) ≡ (idx == 0 && i == 4)
which i idx lo hi few = ground arith

-- There are eight caches and none is being updated when round `i` of `updateCache` sets its two
-- flags, for `i` from 1 to 7. Then each of the four threads is sent to one of the eight caches,
-- and that cache is being updated for thread 0 in round 4 only.
pub choice-set_both :
    (caches : List LruCache) (i idx : ℕ)
    → length caches ≡ 8
    → NoneUpdating caches
    → 1 ≤ i
    → i < 8
    → idx < 4
    → (cs : List LruCache) × (j : ℕ) × (set_both true i caches ≡ some cs)
      × (choice cs idx ≡ some j)
      × (j < 8)
      × (flag_at cs j ≡ some (idx == 0 && i == 4))
choice-set_both caches i idx len idle lo hi few =
    let (cs, ran, len', flag) = flag_at-set_both i caches idle (omega arith) in
    let b = idx == 0 || idx == i in
    let j = idx + (if b then 4 else 0) in
    let inside : j < 8 = ground arith in
    (
      cs,
      j,
      ran,
      choice_of_flag cs idx b (flag idx (omega arith)),
      inside,
      flag j (omega arith) ∙ ap some (which i idx lo hi few),
    )
