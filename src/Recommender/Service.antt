-- ===== src/Recommender/Service.antt =====
-- src/recommander/KeyRecommander.cc and src/cache/CacheManager.cc at work together: the threads that
-- answer queries, and the timer's thread that runs `updateCache` time and again. The steps of the
-- two are taken one at a time, in any order.
use simple_search_enginer.Prelude.{ℕ, Option, some, List, [], ◌∷◌, ◌++◌, Bytes, length, ◌>>=◌}
use simple_search_enginer.Lru.{LruCache}
use simple_search_enginer.Manager.Actions.{Action, act, update_actions}
use simple_search_enginer.Recommender.{Candidates, do_query}

-- Thread `thread` is asked for `sought`, or the timer's thread does what it has to do next.
pub data Event : Type 0 where
  question : (thread : ℕ) (sought : Bytes) → Event
  update : Event

module _ (d : Candidates) where
  open d use {State, answer}

  -- `todo` is what is left of the `updateCache` that is running.
  pub record Service : Type 0 where
    pub dic : State
    pub caches : List LruCache
    pub todo : List Action
    pub file : Bytes

  unfoldable pub next_action : Service → List Action → Option Service
  next_action s [] = some (record s { todo = update_actions (length s.caches) })
  next_action s (a ∷ rest) = do
    (caches, file) ← act a (s.caches, s.file)
    some (record s { caches = caches; file = file; todo = rest })

  -- The new state, and what is replied.
  unfoldable pub step : Service → Event → Option (Service × List (List Bytes))
  unfolding next_action
  step s (question thread sought) = do
    o ← do_query d s.dic s.caches sought thread
    some (record s { dic = o.dic; caches = o.caches }, o.res ∷ [])
  step s update = do s' ← next_action s s.todo; some (s', [])

  unfoldable pub run_events : Service → List Event → Option (Service × List (List Bytes))
  unfolding step
  run_events s [] = some (s, [])
  run_events s (e ∷ es) = do
    (s', reply) ← step s e
    (s'', replies) ← run_events s' es
    some (s'', reply ++ replies)

  -- What the questions alone come to, with no cache.
  unfoldable pub expected : State → List Event → Option (List (List Bytes))
  expected s [] = some []
  expected s (question thread sought ∷ es) = do
    v ← answer s sought
    vs ← expected s es
    some (v ∷ vs)
  expected s (update ∷ es) = expected s es
