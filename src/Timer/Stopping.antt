-- ===== src/Timer/Stopping.antt =====
-- What the two steps of `stop` of src/cache/Timerfd.cc bring about.
use simple_search_enginer.Prelude.{ℕ, ◌+◌, ◌≤◌, ◌≡◌, refl, ◌≢◌, false, List, [], ◌∷◌, arith, All}
use simple_search_enginer.Timer
use simple_search_enginer.Timer.{Timer, Place, Event, CallResult, step, run}

-- A thread that has passed the test of `_isStarted` may still make a call.
abbrev pub under_way : Place → ℕ
under_way Timer.testing = 0
under_way Timer.polling = 1
under_way Timer.reading = 1
under_way Timer.calling = 1
under_way Timer.returned = 0

-- A timer whose `_isStarted` was cleared, with the bounds of its calls.
record IsStopped (least most : ℕ) (t : Timer) : Type 0 where
  stopped : t.is_started ≡ false
  kept : least ≤ t.calls
  few : t.calls + under_way t.place ≤ most

advance-IsStopped :
    (least most : ℕ) (o : CallResult) (place : Place) (t : Timer)
    → t.place ≡ place
    → IsStopped least most t
    → IsStopped least most (step (Timer.advance o) place t)
unfolding step
advance-IsStopped least most o Timer.testing t at h = record {
  stopped = h.stopped;
  kept = h.kept;
  few = ground (arith, h.few, h.stopped, at);
}
advance-IsStopped least most Timer.interrupted Timer.polling t at h = record {
  stopped = h.stopped;
  kept = h.kept;
  few = ground (arith, h.few, at);
}
advance-IsStopped least most Timer.failed Timer.polling t at h = record {
  stopped = h.stopped;
  kept = h.kept;
  few = ground (arith, h.few, at);
}
advance-IsStopped least most Timer.timeout Timer.polling t at h = record {
  stopped = h.stopped;
  kept = h.kept;
  few = ground (arith, h.few, at);
}
advance-IsStopped least most Timer.ready Timer.polling t at h = record {
  stopped = h.stopped;
  kept = h.kept;
  few = ground (arith, h.few, at);
}
advance-IsStopped least most Timer.interrupted Timer.reading t at h = record {
  stopped = h.stopped;
  kept = h.kept;
  few = ground (arith, h.few, at);
}
advance-IsStopped least most Timer.failed Timer.reading t at h = record {
  stopped = h.stopped;
  kept = h.kept;
  few = ground (arith, h.few, at);
}
advance-IsStopped least most Timer.timeout Timer.reading t at h = h
advance-IsStopped least most Timer.ready Timer.reading t at h = record {
  stopped = ground (arith, h.stopped);
  kept = ground (arith, h.kept);
  few = ground (arith, h.few, at);
}
advance-IsStopped least most o Timer.calling t at h = record {
  stopped = h.stopped;
  kept = ground (arith, h.kept);
  few = ground (arith, h.few, at);
}
advance-IsStopped least most o Timer.returned t at h = h

step-IsStopped :
    (least most : ℕ) (e : Event) (t : Timer)
    → IsStopped least most t
    → IsStopped least most (step e t.place t)
unfolding step
step-IsStopped least most (Timer.advance o) t h = advance-IsStopped least most o t.place t refl h
step-IsStopped least most Timer.clear t h = record { stopped = refl; kept = h.kept; few = h.few }
step-IsStopped least most Timer.disarm t h = record {
  stopped = h.stopped;
  kept = h.kept;
  few = h.few;
}
step-IsStopped least most Timer.expire t h = record {
  stopped = ground (arith, h.stopped);
  kept = ground (arith, h.kept);
  few = ground (arith, h.few);
}

run-IsStopped :
    (least most : ℕ) (es : List Event) (t : Timer)
    → IsStopped least most t
    → IsStopped least most (run es t)
unfolding run
run-IsStopped least most [] t h = h
run-IsStopped least most (e ∷ es) t h =
    run-IsStopped least most es _ (step-IsStopped least most e t h)

-- Another thread clears `_isStarted`, the first step of `stop`, while the timer's thread stands
-- anywhere in the loop of `start`. Whatever steps of the loop, of `stop` and of the kernel follow, the
-- callback is called once more at most, and not at all if the timer's thread stood before the
-- test of `_isStarted` or had left the loop.
pub run-clear :
    (es : List Event) (t : Timer)
    → (t.calls ≤ (run (Timer.clear ∷ es) t).calls)
      × ((run (Timer.clear ∷ es) t).calls ≤ t.calls + under_way t.place)
unfolding run step
run-clear es t =
    let h =
      run-IsStopped t.calls (t.calls + under_way t.place) es (step Timer.clear t.place t)
        (record { stopped = refl; kept = omega arith; few = omega arith }) in
    (h.kept, omega (arith, h.few))

-- A thread that waits in `read` for a timer that is not armed.
record IsBlocked (calls : ℕ) (t : Timer) : Type 0 where
  waits : t.place ≡ Timer.reading
  none_left : t.expirations ≡ 0
  disarmed : t.armed ≡ (0, 0)
  same : t.calls ≡ calls

-- No system call of the timer's thread fails or is interrupted.
abbrev pub Undisturbed : List Event → Type 0
Undisturbed =
    All (λ (e : Event). (e ≢ Timer.advance Timer.interrupted) × (e ≢ Timer.advance Timer.failed))

read-IsBlocked :
    (calls : ℕ) (o : CallResult) (place : Place) (t : Timer)
    → t.place ≡ place
    → Timer.advance o ≢ Timer.advance Timer.interrupted
    → Timer.advance o ≢ Timer.advance Timer.failed
    → IsBlocked calls t
    → IsBlocked calls (step (Timer.advance o) place t)
unfolding step
read-IsBlocked calls o Timer.testing t at n m h = absurd (cc (at, h.waits))
read-IsBlocked calls o Timer.polling t at n m h = absurd (cc (at, h.waits))
read-IsBlocked calls Timer.interrupted Timer.reading t at n m h = absurd (n refl)
read-IsBlocked calls Timer.failed Timer.reading t at n m h = absurd (m refl)
read-IsBlocked calls Timer.timeout Timer.reading t at n m h = h
read-IsBlocked calls Timer.ready Timer.reading t at n m h = record {
  waits = ground (arith, h.waits, h.none_left);
  none_left = ground (arith, h.none_left);
  disarmed = ground (arith, h.disarmed, h.none_left);
  same = ground (arith, h.same);
}
read-IsBlocked calls o Timer.calling t at n m h = absurd (cc (at, h.waits))
read-IsBlocked calls o Timer.returned t at n m h = h

step-IsBlocked :
    (calls : ℕ) (e : Event) (t : Timer)
    → e ≢ Timer.advance Timer.interrupted
    → e ≢ Timer.advance Timer.failed
    → IsBlocked calls t
    → IsBlocked calls (step e t.place t)
unfolding step
step-IsBlocked calls (Timer.advance o) t n m h = read-IsBlocked calls o t.place t refl n m h
step-IsBlocked calls Timer.clear t n m h = record {
  waits = h.waits;
  none_left = h.none_left;
  disarmed = h.disarmed;
  same = h.same;
}
step-IsBlocked calls Timer.disarm t n m h = record {
  waits = h.waits;
  none_left = refl;
  disarmed = refl;
  same = h.same;
}
step-IsBlocked calls Timer.expire t n m h = record {
  waits = ground (arith, h.waits);
  none_left = ground (arith, h.none_left, h.disarmed);
  disarmed = ground (arith, h.disarmed);
  same = ground (arith, h.same);
}

run-IsBlocked :
    (calls : ℕ) (es : List Event) (t : Timer)
    → Undisturbed es
    → IsBlocked calls t
    → IsBlocked calls (run es t)
unfolding run
run-IsBlocked calls [] t quiet h = h
run-IsBlocked calls (e ∷ es) t quiet h =
    run-IsBlocked calls es _ quiet.1 (step-IsBlocked calls e t quiet.0.0 quiet.0.1 h)

-- If the second step of `stop` disarms the timer while the timer's thread has come back from `poll`
-- and not yet read the descriptor, then the expirations are forgotten: whatever steps of the loop,
-- of `stop` and of the kernel follow, as long as no system call fails or is interrupted, the timer's
-- thread stays in `read` and never calls the callback again nor leaves the loop.
pub run-disarm :
    (es : List Event) (t : Timer)
    → t.place ≡ Timer.reading
    → Undisturbed es
    → ((run (Timer.disarm ∷ es) t).place ≡ Timer.reading)
      × ((run (Timer.disarm ∷ es) t).calls ≡ t.calls)
unfolding run step
run-disarm es t at quiet =
    let h =
      run-IsBlocked t.calls es (step Timer.disarm t.place t) quiet
        (record { waits = at; none_left = refl; disarmed = refl; same = refl }) in
    (h.waits, h.same)
