-- ===== src/Reactor/Sessions.antt =====
-- The calls that a connection of src/reactorpool/EventLoop.cc gets: it is connected, then come its
-- messages, then it is closed.
use simple_search_enginer.Prelude.{
  ℕ, ◌+◌, ◌≡◌, refl, inl, inr, Bool, true, false, Bool-cases, Option, none, some, List, [], ◌∷◌,
  ◌++◌, arith, ◌==◌, if◌then◌else◌, ◌>>=◌, lookup, ℕ_discrete, Distinct, erase-Distinct,
  lookup-erase_self, lookup-erase_ne, Option-cases,
}
use simple_search_enginer.Reactor.{
  Call, Connections, insert_conn, unwatch, handle_new_connection, handle_message,
}

-- Whether descriptor `fd` is a connection.
abbrev pub is_open : ℕ → List (ℕ × Unit {0}) → Bool
is_open fd conns = elim (lookup ℕ_discrete fd conns) [ none ↦ false | some c ↦ true ]

-- What a call makes of a connection that is open or not; `none` if it must not come.
abbrev pub after_call : ℕ → Call → Bool → Option Bool
after_call fd (Call.connected g) open? =
    if g == fd then (if open? then none else some true) else some open?
after_call fd (Call.message g) open? =
    if g == fd then (if open? then some true else none) else some open?
after_call fd (Call.closed g) open? =
    if g == fd then (if open? then some false else none) else some open?

-- The calls in order.
abbrev pub after_calls : ℕ → List Call → Bool → Option Bool
after_calls fd [] open? = some open?
after_calls fd (c ∷ cs) open? = after_call fd c open? >>= after_calls fd cs

after_calls-last :
    (fd : ℕ) (cs : List Call) (c : Call) (b : Bool)
    → after_calls fd (cs ++ (c ∷ [])) b ≡ (after_calls fd cs b >>= after_call fd c)
after_calls-last fd [] c b = elim (Option-cases (after_call fd c b)) [
  | inl e ↦ ground (arith, e)
  | inr (o, e) ↦ ground (arith, e)
]
after_calls-last fd (d ∷ cs) c b = elim (Option-cases (after_call fd d b)) [
  | inl e ↦ rw e refl
  | inr (o, e) ↦ rw e (after_calls-last fd cs c o)
]

abbrev pub occurrences : ℕ → List ℕ → ℕ
occurrences fd [] = 0
occurrences fd (w ∷ ws) = (if w == fd then 1 else 0) + occurrences fd ws

occurrences-unwatch :
    (fd g : ℕ) (ws : List ℕ)
    → (if occurrences g ws == 0 then 0 else (if g == fd then 1 else 0))
        + occurrences fd (unwatch g ws)
      ≡ occurrences fd ws
unfolding unwatch
occurrences-unwatch fd g [] = ground arith
occurrences-unwatch fd g (w ∷ ws) = ground (arith, occurrences-unwatch fd g ws)

-- The connections and the calls agree: a descriptor is open just if its calls leave it open, no
-- call came when it must not, and epoll watches the descriptors in `base` and the open ones.
pub record IsOrderly (base : List ℕ) (s : Connections) : Type 0 where
  pub phases : (fd : ℕ) → after_calls fd s.called false ≡ some (is_open fd s.conns)
  pub watching :
      (fd : ℕ)
      → occurrences fd s.watched ≡ occurrences fd base + (if is_open fd s.conns then 1 else 0)
  pub apart : Distinct ℕ_discrete s.conns

module _ (base : List ℕ) where
  pub handle_new_connection-IsOrderly :
      (fd : ℕ) (s : Connections)
      → lookup ℕ_discrete fd s.conns ≡ none
      → IsOrderly base s
      → IsOrderly base (handle_new_connection fd s)
  unfolding handle_new_connection insert_conn
  handle_new_connection-IsOrderly fd s new h = record {
    phases =
        λ g. ground (arith, new, h.phases g, after_calls-last g s.called (Call.connected fd) false);
    watching = λ g. ground (arith, new, h.watching g);
    apart = ground (arith, new, h.apart);
  }

  pub handle_message-IsOrderly :
      (closed : Bool) (fd : ℕ) (s : Connections)
      → IsOrderly base s
      → IsOrderly base (handle_message (λ g. closed) fd s)
  unfolding handle_message
  handle_message-IsOrderly closed fd s h = elim (Option-cases (lookup ℕ_discrete fd s.conns)) [
    | inl e ↦ rw (handle_message, e) h
    | inr (c, e) ↦ elim (Bool-cases closed) [
      | inr stays ↦
          rw (handle_message, e, stays)
            (record {
              phases = λ g.
                  ground
                    (arith, e, h.phases g, after_calls-last g s.called (Call.message fd) false);
              watching = h.watching;
              apart = h.apart;
            })
      | inl left ↦
          rw (handle_message, e, left)
            (record {
              phases = λ g. ground (
                arith,
                e,
                h.phases g,
                after_calls-last g s.called (Call.closed fd) false,
                lookup-erase_self ℕ_discrete fd s.conns h.apart,
                lookup-erase_ne ℕ_discrete fd g s.conns,
              );
              watching = λ g. ground (
                arith,
                e,
                h.watching g,
                h.watching fd,
                occurrences-unwatch g fd s.watched,
                lookup-erase_self ℕ_discrete fd s.conns h.apart,
                lookup-erase_ne ℕ_discrete fd g s.conns,
              );
              apart = erase-Distinct ℕ_discrete fd s.conns h.apart;
            })
    ]
  ]
