-- ===== src/Reactor/Runs.antt =====
-- Tests of the model of src/reactorpool/EventLoop.cc.
use simple_search_enginer.Prelude.{
  ℕ, suc, ◌+◌, ◌≤◌, ◌≡◌, refl, true, false, some, none, List, [], ◌∷◌, arith, erase, lookup,
  ℕ_discrete, All, if◌then◌else◌,
}
use simple_search_enginer.Reactor.Dispatch
use simple_search_enginer.Reactor.Dispatch.{is_closed, Wait, Loop, loop_started, loop_over}
use simple_search_enginer.Reactor.Looping
use simple_search_enginer.Reactor.Looping.{AllPeeked, IsFresh}
use simple_search_enginer.Reactor.Sessions.{after_calls, is_open, occurrences}
use simple_search_enginer.Reactor.{
  Call, Connections, insert_conn, unwatch, handle_new_connection, handle_message, Pending, Turn,
  push_functor, handle_read, swap_functors,
}
use simple_search_enginer.Reactor.Steps
use simple_search_enginer.Reactor.Steps.{Step, Reach}
use simple_search_enginer.Reactor.Functors
use simple_search_enginer.Reactor.Functors.{IsServed}

-- A functor that was taken, with one that was added since and not yet announced.
abbrev two_functors : Pending
two_functors = record {
  functors = 2 ∷ [];
  counter = 0;
  unwoken = 1;
  turn = Turn.running (1 ∷ []);
  added = 1 ∷ 2 ∷ [];
  ran = [];
}

two_functors-Reach : Reach two_functors
unfolding push_functor handle_read swap_functors
two_functors-Reach =
    Steps.then_
      (Steps.then_
        (Steps.then_ (Steps.then_ (Steps.then_ Steps.begin (Steps.push 1)) (Steps.wakeup 0 refl))
          (Steps.read refl (omega arith)))
        (Steps.swap refl))
      (Steps.push 2)

Reach-IsServed_example : IsServed two_functors
Reach-IsServed_example = Functors.Reach-IsServed two_functors-Reach

abbrev no_connections : Connections
no_connections = record { conns = []; watched = 3 ∷ 4 ∷ []; called = [] }

-- A connection on descriptor 7 that sends a message and then closes.
handle_message-closed :
    handle_message
      (λ fd. true)
      7
      (handle_message (λ fd. false) 7 (handle_new_connection 7 no_connections))
    ≡ record {
      conns = [];
      watched = 3 ∷ 4 ∷ [];
      called = Call.connected 7 ∷ Call.message 7 ∷ Call.closed 7 ∷ [];
    }
unfolding handle_message handle_new_connection insert_conn unwatch erase ℕ_discrete
handle_message-closed = refl

-- A descriptor above all that are open.
abbrev above : ℕ → List (ℕ × Unit {0}) → ℕ
above n [] = 7
above n ((fd, c) ∷ conns) = suc fd + above n conns

above_absent :
    (n q : ℕ) (conns : List (ℕ × Unit {0})) → above n conns ≤ q → lookup ℕ_discrete q conns ≡ none
above_absent n q [] h = refl
above_absent n q ((fd, c) ∷ conns) h = ground (arith, above_absent n q conns)

above-IsFresh : IsFresh above
above-IsFresh n conns = above_absent n (above n conns) conns (omega arith)

-- A client connects on descriptor 7, sends, and closes while another connects.
abbrev waits : List Wait
waits =
    Dispatch.ready (record { fd = 3; readable = true; peeks = Dispatch.failed ∷ [] } ∷ [])
    ∷ Dispatch.interrupt
    ∷ Dispatch.ready (record { fd = 7; readable = true; peeks = Dispatch.bytes 4 ∷ [] } ∷ [])
    ∷ Dispatch.timeout
    ∷ Dispatch.ready (
        record { fd = 3; readable = true; peeks = Dispatch.failed ∷ [] }
        ∷ record { fd = 7; readable = true; peeks = Dispatch.interrupted ∷ Dispatch.bytes 0 ∷ [] }
        ∷ [])
    ∷ []

waits-AllPeeked : All AllPeeked waits
unfolding is_closed
waits-AllPeeked = (
  ((false, refl), tt),
  (tt, (((false, refl), tt), (tt, (((false, refl), ((true, refl), tt)), tt)))),
)

loop_over-sessions_example :
    (s : Loop) × (loop_over 3 4 above waits (loop_started 3 4 above) ≡ some s)
    × ((fd : ℕ) → after_calls fd s.connections.called false ≡ some (is_open fd s.connections.conns))
    × ((fd : ℕ)
        → occurrences fd s.connections.watched
          ≡ occurrences fd (4 ∷ 3 ∷ []) + (if is_open fd s.connections.conns then 1 else 0))
loop_over-sessions_example =
    Looping.loop_over-sessions 3 4 above above-IsFresh waits waits-AllPeeked
