-- ===== src/Manager/Flags.antt =====
-- The `_isUpdating` flags of src/cache/CacheManager.cc while a round runs.
use simple_search_enginer.Prelude.{
  ℕ, ◌<◌, ◌≡◌, Bool, true, false, ◌||◌, Option, none, some, List, arith, get_elem?, set, length,
  length-set, get_elem?-set_self, get_elem?-set_ne, get_elem?_of_lt, All, get_elem?-All, ◌==◌,
}
use simple_search_enginer.Lru.{LruCache}
use simple_search_enginer.Manager.{set_updating, set_both}

-- The flag of one cache.
unfoldable pub flag_at : List LruCache → ℕ → Option Bool
flag_at caches j = elim (get_elem? caches j) [ none ↦ none | some c ↦ some c.is_updating ]

set_updating_lem :
    (b : Bool) (i : ℕ) (caches : List LruCache)
    → i < length caches
    → (cs : List LruCache) × (set_updating b i caches ≡ some cs)
      × (length cs ≡ length caches)
      × ((j : ℕ) → flag_at cs j ≡ (elim (i == j) [ true ↦ some b | false ↦ flag_at caches j ]))
unfolding set_updating flag_at
set_updating_lem b i caches h =
    let (c, found) = get_elem?_of_lt caches i h in
    (
      set caches i (record c { is_updating = b }),
      ground (arith, found),
      length-set caches i _,
      λ j. ground (
        arith,
        get_elem?-set_self caches i (record c { is_updating = b }) h,
        get_elem?-set_ne caches i j (record c { is_updating = b }),
      ),
    )

-- While no round runs.
abbrev pub NoneUpdating : List LruCache → Type 0
NoneUpdating = All (λ (c : LruCache). c.is_updating ≡ false)

flag_at_none :
    (caches : List LruCache) (j : ℕ)
    → NoneUpdating caches
    → j < length caches
    → flag_at caches j ≡ some false
unfolding flag_at
flag_at_none caches j idle h =
    let (c, found) = get_elem?_of_lt caches j h in
    ground (
      arith,
      found,
      get_elem?-All (λ (x : LruCache). x.is_updating ≡ false) caches j {a = c} idle found,
    )

-- In round `i` just the main cache and cache `i` are marked.
pub flag_at-set_both :
    (i : ℕ) (caches : List LruCache)
    → NoneUpdating caches
    → i < length caches
    → (cs : List LruCache) × (set_both true i caches ≡ some cs)
      × (length cs ≡ length caches)
      × ((j : ℕ) → j < length caches → flag_at cs j ≡ some (j == 0 || j == i))
unfolding set_both
flag_at-set_both i caches idle h =
    let (cs₀, ran₀, len₀, flag₀) = set_updating_lem true 0 caches (omega arith) in
    let (cs, ran, len, flag) = set_updating_lem true i cs₀ (omega arith) in
    (
      cs,
      ground (arith, ran₀, ran),
      omega arith,
      λ j hj. ground (arith, flag j, flag₀ j, flag_at_none caches j idle hj),
    )
