-- ===== src/Pool.antt =====
-- `TaskQueue` of src/reactorpool/TaskQueue.cc, and the threads of src/reactorpool/Threadpool.cc that
-- share one. A task is named by a number; what stands between two uses of the mutex is one step.
pub mod Steps
pub mod Fifo
pub mod Bounded
pub mod Awake
mod Runs
use simple_search_enginer.Prelude.{
  ℕ, suc, ◌+◌, Bool, true, false, not, ◌&&◌, Option, none, some, List, [], ◌∷◌, ◌++◌, ◌==◌,
  if◌then◌else◌, length, ite, ℕ_discrete,
}

abbrev pub Task : Type 0
Task = ℕ

pub record TaskQueue : Type 0 where
  pub capacity : ℕ
  pub que : List Task
  pub clear_flag : Bool

unfoldable pub init : ℕ → TaskQueue
init capacity = record { capacity = capacity; que = []; clear_flag = false }

unfoldable pub is_full : TaskQueue → Bool
is_full q = length q.que == q.capacity

unfoldable pub is_empty : TaskQueue → Bool
is_empty q = elim q.que [ [] ↦ true | t ∷ ts ↦ false ]

-- What a thread does that holds the mutex: it waits, or goes on.
pub data Pushed : Type 0 where
  full : Pushed
  added : TaskQueue → Pushed

-- The end of `push`, which follows the wait without another test.
unfoldable pub push_now : Task → TaskQueue → TaskQueue
push_now t q = record q { que = q.que ++ (t ∷ []) }

-- `push` up to its wait.
unfoldable pub push : Task → TaskQueue → Pushed
unfolding is_full push_now
push t q = if is_full q then full else added (push_now t q)

pub data Popped : Type 0 where
  empty : Popped
  cleared : Popped
  popped : Task → TaskQueue → Popped

-- One test of the loop of `pop`, and what follows it.
unfoldable pub pop : TaskQueue → Popped
pop q =
    if q.clear_flag
    then cleared
    else elim q.que [ [] ↦ empty | t ∷ ts ↦ popped t (record q { que = ts }) ]

-- The flag that `wakeup` sets, without the mutex, before it wakes the threads.
unfoldable pub set_clear : TaskQueue → TaskQueue
set_clear q = record q { clear_flag = true }

-- Where the thread that adds tasks stands: outside, asleep in `push`, woken there, or before
-- `_condEmpty.notify()`.
pub data Producer : Type 0 where
  ready : Producer
  blocked : Task → Producer
  signalled : Task → Producer
  notifying : Producer

-- Where a thread of `wokerDoTask` stands: before the test of `_isExit`, before the test in `pop`,
-- between that test and the wait, asleep, with a task, and after the loop.
pub data Worker : Type 0 where
  outside : Worker
  testing : Worker
  falling : Worker
  waiting : Worker
  running : Task → Worker
  finished : Worker

-- Where `stop` stands: before its loop ends, and then before each of its three statements.
pub data Stopper : Type 0 where
  polling : Stopper
  setting : Stopper
  waking : Stopper
  joining : Stopper

-- `held`: a thread holds the mutex between its test and its wait. `accepted`, `started` and `done`
-- are the tasks that were pushed, popped and run.
pub record System : Type 0 where
  pub queue : TaskQueue
  pub producer : Producer
  pub workers : ℕ → Worker
  pub stopper : Stopper
  pub is_exit : Bool
  pub held : Bool
  pub accepted : List Task
  pub started : List Task
  pub done : List Task

abbrev pub update : (ℕ → Worker) → ℕ → Worker → ℕ → Worker
update f i w j = ite (ℕ_discrete j i) w (f j)

-- `_condFull.notify()`, which wakes the thread that waits to push.
unfoldable pub signal_full : Producer → Producer
signal_full ready = ready
signal_full (blocked t) = signalled t
signal_full (signalled t) = signalled t
signal_full notifying = notifying

-- `_condEmpty.notifyAll()`
unfoldable pub wake : Worker → Worker
wake outside = outside
wake testing = testing
wake falling = falling
wake waiting = testing
wake (running t) = running t
wake finished = finished

abbrev pub fresh : ℕ → System
fresh capacity = record {
  queue = init capacity;
  producer = ready;
  workers = λ i. outside;
  stopper = polling;
  is_exit = false;
  held = false;
  accepted = [];
  started = [];
  done = [];
}
