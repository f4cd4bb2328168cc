-- ===== src/Recommender/Interleaving.antt =====
-- However the queries of src/recommander/KeyRecommander.cc and the rounds of `updateCache` of
-- src/cache/CacheManager.cc fall between one another, the replies are the dictionary's answers.
use simple_search_enginer.Prelude.{
  ℕ, ◌+◌, ◌<◌, ◌≡◌, refl, ap, ◌∙◌, some, List, [], ◌∷◌, arith, Bytes, length, get_elem?_of_lt, All,
  bind-some, if◌then◌else◌,
}
use simple_search_enginer.Lru.{LruCache}
use simple_search_enginer.Manager.Actions.{Action, update_actions}
use simple_search_enginer.Recommender.{Candidates, choice}
use simple_search_enginer.Recommender.Keeping.{
  IsInside, IsKept, IsServing, update_actions-IsInside, act-Keeps,
}
use simple_search_enginer.Recommender.Service
use simple_search_enginer.Recommender.Service.{
  Event, Service, step, next_action, run_events, expected,
}
use simple_search_enginer.Recommender.Transparency.{IsCoherent, do_query-answer_in}

-- A question comes from one of the four threads of the pool.
abbrev pub IsOfPool : Event → Type 0
IsOfPool (Service.question thread sought) = thread < 4
IsOfPool Service.update = Unit {0}

-- Whatever the flags, a thread of the pool is sent to one of the eight caches.
choice_inside :
    (caches : List LruCache) (thread : ℕ)
    → length caches ≡ 8
    → thread < 4
    → (j : ℕ) × (choice caches thread ≡ some j) × (j < length caches)
unfolding choice
choice_inside caches thread len h =
    let (own, at) = get_elem?_of_lt caches thread (omega arith) in
    let j = thread + (if own.is_updating then 4 else 0) in (j, rw at refl, ground arith)

module _ (d : Candidates) (n : ℕ) where
  open d use {State, answer}

  both-IsKept :
      (s : State) (cs : List LruCache)
      → All (IsCoherent d s) cs
      → All (λ (c : LruCache). c.capacity ≡ n) cs
      → All (IsKept d n s) cs
  both-IsKept s [] h k = tt
  both-IsKept s (c ∷ cs) h k = (record { coherent = h.0; capacity = k.0 }, both-IsKept s cs h.1 k.1)

  all-IsCoherent :
      (s : State) (cs : List LruCache) → All (IsKept d n s) cs → All (IsCoherent d s) cs
  all-IsCoherent s [] h = tt
  all-IsCoherent s (c ∷ cs) h = (h.0.coherent, all-IsCoherent s cs h.1)

  all_capacities :
      (s : State) (cs : List LruCache)
      → All (IsKept d n s) cs
      → All (λ (c : LruCache). c.capacity ≡ n) cs
  all_capacities s [] h = tt
  all_capacities s (c ∷ cs) h = (h.0.capacity, all_capacities s cs h.1)

  expected_same :
      (s s' : State) (es : List Event)
      → ((q : Bytes) → answer s' q ≡ answer s q)
      → expected d s' es ≡ expected d s es
  unfolding expected
  expected_same s s' [] same = refl
  expected_same s s' (Service.question thread sought ∷ es) same =
      ground (arith, same sought, expected_same s s' es same)
  expected_same s s' (Service.update ∷ es) same = expected_same s s' es same

  next_action-IsServing :
      (m : Service d) (todo : List Action)
      → IsServing d n m
      → All IsInside todo
      → (m' : Service d) × (next_action d m todo ≡ some m') × IsServing d n m' × (m'.dic ≡ m.dic)
  unfolding next_action
  next_action-IsServing m [] h inside = (
    record m { todo = update_actions (length m.caches) },
    refl,
    record { kept = h.kept; count = h.count; inside = rw h.count update_actions-IsInside },
    refl,
  )
  next_action-IsServing m (a ∷ rest) h inside =
      let (cs, file, ran, all, len) =
        act-Keeps d n m.dic a m.caches m.file h.kept h.count inside.0 in
      (
        record m { caches = cs; file = file; todo = rest },
        rw ran refl,
        record { kept = all; count = len ∙ h.count; inside = inside.1 },
        refl,
      )

  -- There are eight caches of one capacity that hold nothing but answers. Then any sequence of
  -- questions of the four threads, for words that the dictionary answers, mixed in any way with
  -- the actions of one `updateCache` after another, is served to its end without a fault; the
  -- replies are the dictionary's answers in the order of the questions, as if there were neither
  -- caches nor updates; and the caches are again as at the start.
  pub run_events-expected :
      (m : Service d) (es : List Event) (replies : List (List Bytes))
      → IsServing d n m
      → All IsOfPool es
      → expected d m.dic es ≡ some replies
      → (m' : Service d) × (run_events d m es ≡ some (m', replies)) × IsServing d n m'
  unfolding run_events step expected
  run_events-expected m [] replies h pool known = (m, ground (arith, known), h)
  run_events-expected m (Service.question thread sought ∷ es) replies h pool known =
      let (v, found, known₁) = bind-some (answer m.dic sought) _ known in
      let (vs, known₂, all_known) = bind-some (expected d m.dic es) _ known₁ in
      let (j, chosen, inside) = choice_inside m.caches thread h.count pool.0 in
      let (o, ran, res, same, all, len, capacities) =
        do_query-answer_in d m.dic m.caches sought thread j v (all-IsCoherent m.dic m.caches h.kept)
          chosen inside found in
      let m₁ : Service d = record m { dic = o.dic; caches = o.caches } in
      let h₁ : IsServing d n m₁ = record {
        kept = both-IsKept o.dic o.caches all (capacities n (all_capacities m.dic m.caches h.kept));
        count = len ∙ h.count;
        inside = h.inside;
      } in
      let (m', rest, h') =
        run_events-expected m₁ es vs h₁ pool.1 (expected_same m.dic o.dic es same ∙ known₂) in
      (m', rw (run_events, ran, rest) (ground (arith, res, all_known)), h')
  run_events-expected m (Service.update ∷ es) replies h pool known =
      let (m₁, ran, h₁, same) = next_action-IsServing m m.todo h h.inside in
      let (m', rest, h') =
        run_events-expected m₁ es replies h₁ pool.1 (ap (λ s. expected d s es) same ∙ known) in
      (m', rw (run_events, ran, rest) refl, h')
