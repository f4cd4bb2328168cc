-- ===== src/Reactor/Dispatch.antt =====
-- `loop` and `waitEpollFd` of src/reactorpool/EventLoop.cc over what `epoll_wait` returns, with
-- `isClosed` of src/reactorpool/TcpConnection.cc. `accept` of the kernel is a parameter
-- and is taken to succeed.
use simple_search_enginer.Prelude.{
  ℕ, suc, ◌*◌, Bool, false, Option, none, some, List, [], ◌∷◌, ◌++◌, ◌==◌, if◌then◌else◌, ◌>>=◌,
  lookup, ℕ_discrete, length,
}
use simple_search_enginer.Reactor.{Connections, handle_new_connection, handle_message}

-- What one call of `recv` with `MSG_PEEK` comes to.
pub data Peek : Type 0 where
  interrupted : Peek
  failed : Peek
  bytes : ℕ → Peek

-- Interrupted calls are made again; `none` if that never ends.
unfoldable pub is_closed : List Peek → Option Bool
is_closed [] = none
is_closed (interrupted ∷ peeks) = is_closed peeks
is_closed (failed ∷ peeks) = some false
is_closed (bytes n ∷ peeks) = some (n == 0)

-- An entry of `_eventList`. `readable` is `events & EPOLLIN`, and `peeks` is what `isClosed` meets.
pub record Ready : Type 0 where
  pub fd : ℕ
  pub readable : Bool
  pub peeks : List Peek

-- What `epoll_wait` comes to.
pub data Wait : Type 0 where
  interrupt : Wait
  broken : Wait
  timeout : Wait
  ready : List Ready → Wait

-- The loop's own fields; `ran` are the functors that ran, and `accepts` counts the calls of
-- `accept`.
pub record Loop : Type 0 where
  pub connections : Connections
  pub functors : List ℕ
  pub ran : List ℕ
  pub events_size : ℕ
  pub accepts : ℕ

module _ (acceptor event_fd : ℕ) (accept : ℕ → List (ℕ × Unit {0}) → ℕ) where
  -- The constructor adds the two descriptors.
  abbrev pub loop_started : Loop
  loop_started = record {
    connections = record { conns = []; watched = event_fd ∷ acceptor ∷ []; called = [] };
    functors = [];
    ran = [];
    events_size = 1024;
    accepts = 0;
  }

  unfoldable pub accept_new : Loop → Loop
  accept_new s = record s {
    connections = handle_new_connection (accept s.accepts s.connections.conns) s.connections;
    accepts = suc s.accepts;
  }

  -- `doPendingFunctors` with nothing in between.
  unfoldable pub run_functors : Loop → Loop
  run_functors s = record s { functors = []; ran = s.ran ++ s.functors }

  -- `handleMessage`, which calls `isClosed` on a connection that is there.
  unfoldable pub read_message : Ready → Loop → Option Loop
  read_message e s = elim (lookup ℕ_discrete e.fd s.connections.conns) [
    | Option.none ↦ some s
    | Option.some c ↦ is_closed e.peeks >>= λ closed.
        some (record s { connections = handle_message (λ fd. closed) e.fd s.connections })
  ]

  -- The round of the `for` loop for one entry.
  unfoldable pub dispatch : Ready → Loop → Option Loop
  unfolding accept_new run_functors read_message
  dispatch e s =
      if e.fd == acceptor
      then some (accept_new s)
      else if e.fd == event_fd
      then some (if e.readable then run_functors s else s)
      else if e.readable
      then read_message e s
      else some s

  unfoldable pub dispatch_all : List Ready → Loop → Option Loop
  unfolding dispatch
  dispatch_all [] s = some s
  dispatch_all (e ∷ es) s = do s' ← dispatch e s; dispatch_all es s'

  -- `_eventList` doubles when it was full.
  unfoldable pub grow : ℕ → Loop → Loop
  grow n s = record s {
    events_size = if n == s.events_size then 2 * s.events_size else s.events_size;
  }

  -- `waitEpollFd` for one return of `epoll_wait`.
  unfoldable pub wait_round : Wait → Loop → Option Loop
  unfolding dispatch_all grow
  wait_round interrupt s = some s
  wait_round broken s = some s
  wait_round timeout s = some s
  wait_round (ready es) s = dispatch_all es (grow (length es) s)

  -- `while (_islooping)`, up to a point in time.
  unfoldable pub loop_over : List Wait → Loop → Option Loop
  unfolding wait_round
  loop_over [] s = some s
  loop_over (w ∷ ws) s = do s' ← wait_round w s; loop_over ws s'
