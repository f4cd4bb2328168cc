-- ===== src/Reactor.antt =====
-- `EventLoop` of src/reactorpool/EventLoop.cc: its connections, and the functors that the threads
-- hand over to it. A functor is named by a number, and so is a descriptor.
pub mod Steps
pub mod Functors
pub mod Dispatch
pub mod Sessions
pub mod Looping
mod Runs
use simple_search_enginer.Prelude.{
  ℕ, zero, suc, ◌+◌, Bool, true, false, Option, none, some, List, [], ◌∷◌, ◌++◌, ◌==◌,
  if◌then◌else◌, lookup, erase, ℕ_discrete,
}

-- What the loop asks of a connection, in order.
pub data Call : Type 0 where
  connected : ℕ → Call
  message : ℕ → Call
  closed : ℕ → Call

-- `_conns`, the descriptors that epoll watches, and the callbacks that were called.
pub record Connections : Type 0 where
  pub conns : List (ℕ × Unit {0})
  pub watched : List ℕ
  pub called : List Call

-- `_conns.insert`, which keeps an entry that is there.
unfoldable pub insert_conn : ℕ → List (ℕ × Unit {0}) → List (ℕ × Unit {0})
insert_conn fd conns = elim (lookup ℕ_discrete fd conns) [
  | Option.none ↦ (fd, tt) ∷ conns
  | Option.some c ↦ conns
]

-- `EPOLL_CTL_DEL`
unfoldable pub unwatch : ℕ → List ℕ → List ℕ
unwatch fd [] = []
unwatch fd (w ∷ ws) = let rest = unwatch fd ws in if w == fd then ws else w ∷ rest

unfoldable pub handle_new_connection : ℕ → Connections → Connections
unfolding insert_conn
handle_new_connection fd s = record s {
  conns = insert_conn fd s.conns;
  watched = fd ∷ s.watched;
  called = s.called ++ (Call.connected fd ∷ []);
}

-- `handleMessage`; `is_closed` is what `isClosed` finds.
unfoldable pub handle_message : (ℕ → Bool) → ℕ → Connections → Connections
unfolding unwatch
handle_message is_closed fd s = elim (lookup ℕ_discrete fd s.conns) [
  | Option.none ↦ s
  | Option.some c ↦
      if is_closed fd
      then record s {
        conns = erase ℕ_discrete fd s.conns;
        watched = unwatch fd s.watched;
        called = s.called ++ (Call.closed fd ∷ []);
      }
      else record s { called = s.called ++ (Call.message fd ∷ []) }
]

-- Where the thread of the loop stands in `doPendingFunctors`: outside, before the swap, and in the
-- loop over what it took.
pub data Turn : Type 0 where
  idle : Turn
  swapping : Turn
  running : List ℕ → Turn

-- `_pendingFunctors` and the counter of `_eventfd`. `unwoken` threads have pushed and not yet
-- written to it; `added` and `ran` are the functors in order.
pub record Pending : Type 0 where
  pub functors : List ℕ
  pub counter : ℕ
  pub unwoken : ℕ
  pub turn : Turn
  pub added : List ℕ
  pub ran : List ℕ

abbrev pub quiet : Pending
quiet = record { functors = []; counter = 0; unwoken = 0; turn = idle; added = []; ran = [] }

-- The part of `runInLoop` under the mutex.
unfoldable pub push_functor : ℕ → Pending → Pending
push_functor f s = record s {
  functors = s.functors ++ (f ∷ []);
  unwoken = suc s.unwoken;
  added = s.added ++ (f ∷ []);
}

-- `handleRead` takes all that was written.
unfoldable pub handle_read : Pending → Pending
handle_read s = record s { counter = 0; turn = swapping }

unfoldable pub swap_functors : Pending → Pending
swap_functors s = record s { functors = []; turn = running s.functors }
