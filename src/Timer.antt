-- ===== src/Timer.antt =====
-- src/cache/Timerfd.cc: the loop of `start`, in which the timer's thread waits for the descriptor,
-- reads it and calls the callback, while another thread may call `stop`. Each access to
-- `_isStarted` and each system call is a step of its own, and the steps of the two threads and of
-- the kernel fall between one another in any order. That the callback is set is assumed.
pub mod Stopping
mod Runs
use simple_search_enginer.Prelude.{
  ℕ, zero, suc, Bool, true, false, List, [], ◌∷◌, ◌==◌, if◌then◌else◌,
}

-- What a system call of the timer's thread comes to.
pub data CallResult : Type 0 where
  interrupted : CallResult
  failed : CallResult
  timeout : CallResult
  ready : CallResult

-- Where the timer's thread stands: before the test of `_isStarted`, in `poll`, in the `read` of
-- `handleRead`, before the callback, or behind the loop.
pub data Place : Type 0 where
  testing : Place
  polling : Place
  reading : Place
  calling : Place
  returned : Place

-- `armed` has the seconds to the next expiration of the descriptor, zero where there is none, and
-- those between the later ones; `expirations` counts the ones that were not read. `calls` counts
-- the calls of the callback.
pub record Timer : Type 0 where
  pub init_time : ℕ
  pub peri_time : ℕ
  pub is_started : Bool
  pub armed : ℕ × ℕ
  pub expirations : ℕ
  pub place : Place
  pub calls : ℕ

-- The next step of the timer's thread, the two steps of `stop`, and an expiration.
pub data Event : Type 0 where
  advance : CallResult → Event
  clear : Event
  disarm : Event
  expire : Event

-- `timerfd_settime` also forgets the expirations that were not read.
unfoldable pub set_timer : ℕ → ℕ → Timer → Timer
set_timer init_time peri_time t = record t { armed = (init_time, peri_time); expirations = 0 }

-- `start` up to its loop.
unfoldable pub start_timer : Timer → Timer
unfolding set_timer
start_timer t =
    let set = set_timer t.init_time t.peri_time (record t { is_started = true }) in
    record set { place = testing }

unfoldable pub test_started : Timer → Timer
test_started t = record t { place = if t.is_started then polling else returned }

-- The tests after `poll`. `events` is tested, and not `revents`, so whatever is ready is read.
unfoldable pub after_poll : CallResult → Timer → Timer
after_poll interrupted t = record t { place = testing }
after_poll failed t = record t { place = returned }
after_poll timeout t = record t { place = testing }
after_poll ready t = record t { place = reading }

-- The descriptor was made without TFD_NONBLOCK: a `read` that is not interrupted waits for an
-- expiration, as timerfd_create(2) documents. One that fails only prints a message, and the callback
-- is called after it too.
unfoldable pub read_timer : CallResult → Timer → Timer
read_timer interrupted t = record t { place = calling }
read_timer failed t = record t { place = calling }
read_timer timeout t = t
read_timer ready t = if t.expirations == 0 then t else record t { place = calling; expirations = 0 }

unfoldable pub call_back : Timer → Timer
call_back t = record t { place = testing; calls = suc t.calls }

unfoldable pub clear_started : Timer → Timer
clear_started t = record t { is_started = false }

unfoldable pub disarm_timer : Timer → Timer
unfolding set_timer
disarm_timer t = set_timer 0 0 t

-- The kernel, as timerfd_settime(2) documents it: a timer expires if it is armed, and is then armed
-- anew with its period.
unfoldable pub expire_timer : Timer → Timer
expire_timer t =
    if t.armed.0 == 0
    then t
    else record t { armed = (t.armed.1, t.armed.1); expirations = suc t.expirations }

unfoldable pub step : Event → Place → Timer → Timer
unfolding test_started after_poll read_timer call_back clear_started disarm_timer expire_timer
step (advance o) testing t = test_started t
step (advance o) polling t = after_poll o t
step (advance o) reading t = read_timer o t
step (advance o) calling t = call_back t
step (advance o) returned t = t
step clear place t = clear_started t
step disarm place t = disarm_timer t
step expire place t = expire_timer t

unfoldable pub run : List Event → Timer → Timer
unfolding step
run [] t = t
run (e ∷ es) t = run es (step e t.place t)
