-- ===== src/Reactor/Looping.antt =====
-- The loop of src/reactorpool/EventLoop.cc over everything that `epoll_wait` returns.
use simple_search_enginer.Prelude.{
  ℕ, ◌+◌, ◌≡◌, refl, inl, inr, Bool, false, Bool-cases, Option, none, some, List, [], ◌∷◌, arith,
  ◌==◌, if◌then◌else◌, lookup, ℕ_discrete, All, Option-cases,
}
use simple_search_enginer.Reactor.Dispatch
use simple_search_enginer.Reactor.Dispatch.{
  Peek, is_closed, Ready, Wait, Loop, loop_started, accept_new, run_functors, read_message,
  dispatch, dispatch_all, grow, wait_round, loop_over,
}
use simple_search_enginer.Reactor.Sessions.{
  IsOrderly, is_open, after_calls, occurrences, handle_new_connection-IsOrderly,
  handle_message-IsOrderly,
}

-- The peeks of `isClosed` are not interrupted for ever.
abbrev pub IsPeeked : Ready → Type 0
IsPeeked e = (closed : Bool) × (is_closed e.peeks ≡ some closed)

abbrev pub AllPeeked : Wait → Type 0
AllPeeked Dispatch.interrupt = Unit {0}
AllPeeked Dispatch.broken = Unit {0}
AllPeeked Dispatch.timeout = Unit {0}
AllPeeked (Dispatch.ready es) = All IsPeeked es

-- `accept` gives no descriptor that is open.
abbrev pub IsFresh : (ℕ → List (ℕ × Unit {0}) → ℕ) → Type 0
IsFresh accept =
    (n : ℕ) (conns : List (ℕ × Unit {0})) → lookup ℕ_discrete (accept n conns) conns ≡ none

module _ (acceptor event_fd : ℕ) (accept : ℕ → List (ℕ × Unit {0}) → ℕ)
    (fresh : IsFresh accept) where
  -- The connections are orderly.
  abbrev pub Tidy : Loop → Type 0
  Tidy s = IsOrderly (event_fd ∷ acceptor ∷ []) s.connections

  -- A step of the loop ends and keeps the order.
  abbrev Stays : Option Loop → Type 0
  Stays o = (s' : Loop) × (o ≡ some s') × Tidy s'

  accept_new-Tidy : (s : Loop) → Tidy s → Tidy (accept_new acceptor event_fd accept s)
  unfolding accept_new
  accept_new-Tidy s h =
      handle_new_connection-IsOrderly _ _ s.connections (fresh s.accepts s.connections.conns) h

  read_message-Tidy :
      (e : Ready) (s : Loop)
      → IsPeeked e
      → Tidy s
      → Stays (read_message acceptor event_fd accept e s)
  unfolding read_message
  read_message-Tidy e s (closed, seen) h =
      elim (Option-cases (lookup ℕ_discrete e.fd s.connections.conns)) [
        | inl absent ↦ rw (read_message, absent) (s, refl, h)
        | inr (c, there) ↦
            rw (read_message, there, seen)
              (_, refl, handle_message-IsOrderly _ closed e.fd s.connections h)
      ]

  dispatch-Tidy :
      (e : Ready) (s : Loop) → IsPeeked e → Tidy s → Stays (dispatch acceptor event_fd accept e s)
  unfolding dispatch
  dispatch-Tidy e s seen h = elim (Bool-cases (e.fd == acceptor)) [
    | inl new ↦ rw (dispatch, new) (_, refl, accept_new-Tidy s h)
    | inr other ↦ elim (Bool-cases (e.fd == event_fd)) [
      | inl woken ↦ elim (Bool-cases e.readable) [
        | inl r ↦ rw (dispatch, other, woken, r) (_, refl, h)
        | inr r ↦ rw (dispatch, other, woken, r) (s, refl, h)
      ]
      | inr conn ↦ elim (Bool-cases e.readable) [
        | inl r ↦ rw (dispatch, other, conn, r) (read_message-Tidy e s seen h)
        | inr r ↦ rw (dispatch, other, conn, r) (s, refl, h)
      ]
    ]
  ]

  dispatch_all-Tidy :
      (es : List Ready) (s : Loop)
      → All IsPeeked es
      → Tidy s
      → Stays (dispatch_all acceptor event_fd accept es s)
  unfolding dispatch_all
  dispatch_all-Tidy [] s seen h = (s, refl, h)
  dispatch_all-Tidy (e ∷ es) s seen h =
      let (s₁, ran, h₁) = dispatch-Tidy e s seen.0 h in
      let (s', more, h') = dispatch_all-Tidy es s₁ seen.1 h₁ in (s', rw ran more, h')

  wait_round-Tidy :
      (w : Wait) (s : Loop) → AllPeeked w → Tidy s → Stays (wait_round acceptor event_fd accept w s)
  unfolding wait_round grow
  wait_round-Tidy Dispatch.interrupt s seen h = (s, refl, h)
  wait_round-Tidy Dispatch.broken s seen h = (s, refl, h)
  wait_round-Tidy Dispatch.timeout s seen h = (s, refl, h)
  wait_round-Tidy (Dispatch.ready es) s seen h = dispatch_all-Tidy es _ seen h

  loop_over-Tidy :
      (ws : List Wait) (s : Loop)
      → All AllPeeked ws
      → Tidy s
      → Stays (loop_over acceptor event_fd accept ws s)
  unfolding loop_over
  loop_over-Tidy [] s seen h = (s, refl, h)
  loop_over-Tidy (w ∷ ws) s seen h =
      let (s₁, ran, h₁) = wait_round-Tidy w s seen.0 h in
      let (s', more, h') = loop_over-Tidy ws s₁ seen.1 h₁ in (s', rw ran more, h')

  -- The kernel accepts no descriptor that is open, and does not interrupt `isClosed` for ever.
  -- Then the loop handles whatever `epoll_wait` returns, time after time; each connection is first
  -- connected, then gets its messages, then is closed, and none of these at another time; the
  -- descriptors in `_conns` are those whose calls leave them open; and epoll watches these, each
  -- once, with those of the acceptor and the events.
  pub loop_over-sessions :
      (ws : List Wait)
      → All AllPeeked ws
      → (s : Loop) × (loop_over acceptor event_fd accept ws (loop_started acceptor event_fd accept)
          ≡ some s)
        × ((fd : ℕ)
            → after_calls fd s.connections.called false ≡ some (is_open fd s.connections.conns))
        × ((fd : ℕ)
            → occurrences fd s.connections.watched
              ≡ occurrences fd (event_fd ∷ acceptor ∷ [])
                + (if is_open fd s.connections.conns then 1 else 0))
  loop_over-sessions ws seen =
      let (s, ran, h) =
        loop_over-Tidy ws (loop_started acceptor event_fd accept) seen
          (record { phases = λ fd. refl; watching = λ fd. omega arith; apart = tt }) in
      (s, ran, h.phases, h.watching)
