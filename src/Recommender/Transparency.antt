-- ===== src/Recommender/Transparency.antt =====
-- The caches change no answer: src/recommander/KeyRecommander.cc over src/cache/.
use simple_search_enginer.Prelude.{
  ℕ, zero, suc, ◌+◌, length-set, ◌<◌, ◌≡◌, refl, ap, ◌∙◌, subst, sym, inl, inr, Option, none, some,
  List, [], ◌∷◌, ◌⊎◌, arith, Bytes, Bytes_discrete, lookup, lookup-All, get_elem?_of_lt,
  get_elem?-All, set, length, All, All-append, All-map, Option-cases,
}
use simple_search_enginer.Lru.{LruCache}
use simple_search_enginer.Lru.Invariant.{View, view, IsValid, used, stored}
use simple_search_enginer.Lru.Refinement.{get-used}
use simple_search_enginer.Lru.Puts.{put-stored}
use simple_search_enginer.Lru.Reversal.{Entry}
use simple_search_enginer.Lru.Contents.{
  Holds, used-Holds, stored-Holds, stored_all-Holds, reverse-All,
}
use simple_search_enginer.Manager.{update_cache, get_cache}
use simple_search_enginer.Manager.Update.{IsIdle, IsCopyOf, pendings, update_cache-syncs}
use simple_search_enginer.Recommender.{Candidates, Outcome, choice, answer_from, do_query}

pub set-All {ℓ κ} :
    {A : Type ℓ} (P : A → Type κ) (xs : List A) (i : ℕ) (a : A)
    → P a
    → All P xs
    → All P (set xs i a)
set-All P [] i a p h = tt
set-All P (x ∷ xs) zero a p h = (p, h.1)
set-All P (x ∷ xs) (suc i) a p h = (h.0, set-All P xs i a p h.1)

stored-capacity : (k : Bytes) (v : List Bytes) (w : View) → (stored k v w).capacity ≡ w.capacity
unfolding stored
stored-capacity k v w = refl

used-capacity : (k : Bytes) (w : View) → (used k w).capacity ≡ w.capacity
unfolding used
used-capacity k w = ground arith

module _ (d : Candidates) where
  open d use {State, query, answer, query_lem}

  -- The pair is what the dictionary answers.
  abbrev pub IsAnswer : State → Entry → Type 0
  IsAnswer s e = answer s e.0 ≡ some e.1

  -- A valid cache that holds nothing but answers.
  pub record IsCoherent (s : State) (c : LruCache) : Type 0 where
    pub valid : IsValid c
    pub holds : Holds (IsAnswer s) (view c)

  -- Equal answers carry it over to another state of the dictionary.
  IsCoherent-state :
      (s s' : State) (c : LruCache)
      → ((q : Bytes) → answer s' q ≡ answer s q)
      → IsCoherent s c
      → IsCoherent s' c
  IsCoherent-state s s' c same h = record {
    valid = h.valid;
    holds = record {
      entries = All-map _ _ _ (λ e p. same e.0 ∙ p) h.holds.entries;
      pending = All-map _ _ _ (λ e p. same e.0 ∙ p) h.holds.pending;
    };
  }

  -- What a query comes to, on each branch: the end of `do_query` after `get`. The caches keep
  -- their capacities.
  answer_from-IsCoherent :
      (s : State) (caches : List LruCache) (sought : Bytes) (j : ℕ) (v : List Bytes)
      (lru : LruCache) (cached : Option (List Bytes))
      → All (IsCoherent s) caches
      → IsCoherent s lru
      → (cached ≡ none) ⊎ (cached ≡ some v)
      → answer s sought ≡ some v
      → (o : Outcome d) × (answer_from d s caches j sought (lru, cached) ≡ some o)
        × (o.res ≡ v)
        × ((q : Bytes) → answer o.dic q ≡ answer s q)
        × All (IsCoherent o.dic) o.caches
        × (length o.caches ≡ length caches)
        × ((n : ℕ)
            → lru.capacity ≡ n
            → All (λ (c : LruCache). c.capacity ≡ n) caches
            → All (λ (c : LruCache). c.capacity ≡ n) o.caches)
  unfolding answer_from
  answer_from-IsCoherent s caches sought j v lru cached all here (inr hit) known = (
    record { dic = s; caches = set caches j lru; res = v },
    rw hit,
    refl,
    λ q. refl,
    set-All (IsCoherent s) caches j lru here all,
    length-set caches j lru,
    λ n e. set-All (λ (c : LruCache). c.capacity ≡ n) caches j lru e,
  )
  answer_from-IsCoherent s caches sought j v lru cached all here (inl miss) known =
      let (s', asked, same) = query_lem s sought v known in
      let (lru', put_ok, valid', seen) = put-stored lru sought v here.valid in
      let here' : IsCoherent s lru' = record {
        valid = valid';
        holds =
            subst (Holds (IsAnswer s)) (sym seen)
              (stored-Holds (IsAnswer s) sought v (view lru) known here.holds);
      } in
      (
        record { dic = s'; caches = set caches j lru'; res = v },
        rw (miss, asked, put_ok),
        refl,
        same,
        All-map _ _ _ (λ c. IsCoherent-state s s' c same)
            (set-All (IsCoherent s) caches j lru' here' all),
        length-set caches j lru',
        λ n e.
            set-All (λ (c : LruCache). c.capacity ≡ n) caches j lru'
              (ap (λ (w : View). w.capacity) seen ∙ stored-capacity sought v (view lru) ∙ e),
      )

  cached_cases :
      (s : State) (c : LruCache) (sought : Bytes) (v : List Bytes)
      → IsCoherent s c
      → answer s sought ≡ some v
      → (lookup Bytes_discrete sought (view c).entries ≡ none)
        ⊎ (lookup Bytes_discrete sought (view c).entries ≡ some v)
  cached_cases s c sought v own known =
      elim (Option-cases (lookup Bytes_discrete sought (view c).entries)) [
        | inl miss ↦ inl miss
        | inr (u, hit) ↦ inr (
            ground (
              arith,
              hit,
              known,
              lookup-All Bytes_discrete (IsAnswer s) sought u (view c).entries own.holds.entries
                  hit,
            ))
      ]

  -- `do_query`, with the capacities.
  pub do_query-answer_in :
      (s : State) (caches : List LruCache) (sought : Bytes) (idx j : ℕ) (v : List Bytes)
      → All (IsCoherent s) caches
      → choice caches idx ≡ some j
      → j < length caches
      → answer s sought ≡ some v
      → (o : Outcome d) × (do_query d s caches sought idx ≡ some o)
        × (o.res ≡ v)
        × ((q : Bytes) → answer o.dic q ≡ answer s q)
        × All (IsCoherent o.dic) o.caches
        × (length o.caches ≡ length caches)
        × ((n : ℕ)
            → All (λ (c : LruCache). c.capacity ≡ n) caches
            → All (λ (c : LruCache). c.capacity ≡ n) o.caches)
  unfolding do_query get_cache
  do_query-answer_in s caches sought idx j v all chosen inside known =
      let (c, at) = get_elem?_of_lt caches j inside in
      let own = get_elem?-All (IsCoherent s) caches j {a = c} all at in
      let (lru, got, valid', seen) = get-used c sought own.valid in
      let here : IsCoherent s lru = record {
        valid = valid';
        holds =
            subst (Holds (IsAnswer s)) (sym seen)
              (used-Holds (IsAnswer s) sought (view c) own.holds);
      } in
      let (o, ran, res, same, all', len, capacities) =
        answer_from-IsCoherent s caches sought j v lru _ all here
          (cached_cases s c sought v own known) known in
      (
        o,
        rw (do_query, chosen, at, got) ran,
        res,
        same,
        all',
        len,
        λ n h.
            capacities n
              (ap (λ (w : View). w.capacity) seen
                ∙ used-capacity sought (view c)
                ∙ get_elem?-All (λ (x : LruCache). x.capacity ≡ n) caches j {a = c} h at)
              h,
      )

  -- A query whose chosen cache exists, for a word that the dictionary has an answer for, from
  -- caches that hold nothing but answers, returns that answer, whether it was cached or not; the
  -- dictionary's answers stay, and the caches again hold nothing but answers.
  pub do_query-answer :
      (s : State) (caches : List LruCache) (sought : Bytes) (idx j : ℕ) (v : List Bytes)
      → All (IsCoherent s) caches
      → choice caches idx ≡ some j
      → j < length caches
      → answer s sought ≡ some v
      → (o : Outcome d) × (do_query d s caches sought idx ≡ some o)
        × (o.res ≡ v)
        × ((q : Bytes) → answer o.dic q ≡ answer s q)
        × All (IsCoherent o.dic) o.caches
        × (length o.caches ≡ length caches)
  do_query-answer s caches sought idx j v all chosen inside known =
      let (o, ran, res, same, all', len, _) =
        do_query-answer_in s caches sought idx j v all chosen inside known in
      (o, ran, res, same, all', len)

  pendings-All :
      (s : State) (os : List LruCache) → All (IsCoherent s) os → All (IsAnswer s) (pendings os)
  unfolding pendings
  pendings-All s [] h = tt
  pendings-All s (o ∷ os) h =
      All-append (IsAnswer s) o.pending (pendings os) h.0.holds.pending (pendings-All s os h.1)

  copies-IsCoherent :
      (s : State) (main : LruCache) (os : List LruCache)
      → All (IsAnswer s) (view main).entries
      → All IsValid os
      → All (IsCopyOf (view main)) os
      → All (IsCoherent s) os
  copies-IsCoherent s main [] h v c = tt
  copies-IsCoherent s main (o ∷ os) h v c = (
    record {
      valid = v.0;
      holds =
          subst (Holds (IsAnswer s)) (sym c.0.0)
            (record { entries = reverse-All (IsAnswer s) (view main).entries h; pending = tt });
    },
    copies-IsCoherent s main os h v.1 c.1,
  )

  -- `updateCache` on idle caches of one capacity that hold nothing but answers runs to its end,
  -- and there are as many caches as before, which hold nothing but answers.
  pub update_cache-IsCoherent :
      (s : State) (n : ℕ) (main : LruCache) (others : List LruCache)
      → All (IsIdle n) (main ∷ others)
      → All (IsCoherent s) (main ∷ others)
      → (caches : List LruCache) × (file : Bytes) × (update_cache (main ∷ others)
          ≡ some (caches, file))
        × All (IsCoherent s) caches
        × (length caches ≡ length others + 1)
  update_cache-IsCoherent s n main others idle all =
      let (main', os', ran, v', vs', len, seen, copies) =
        update_cache-syncs n main others idle.0 idle.1 in
      let holds : Holds (IsAnswer s) (view main') = subst (Holds (IsAnswer s)) (sym seen) (
        stored_all-Holds (IsAnswer s) (pendings others) (view main) (pendings-All s others all.1)
          all.0.holds) in
      (
        main' ∷ os',
        _,
        ran,
        (
          record { valid = v'; holds = holds },
          copies-IsCoherent s main' os' holds.entries vs' copies,
        ),
        omega (arith, len),
      )
