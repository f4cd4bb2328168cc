-- ===== src/Timer/Runs.antt =====
-- A run of the model of src/cache/Timerfd.cc.
use simple_search_enginer.Prelude.{◌≤◌, ◌≡◌, refl, false, List, [], ◌∷◌}
use simple_search_enginer.Timer
use simple_search_enginer.Timer.{Event, start_timer, step, run}
use simple_search_enginer.Timer.Stopping

abbrev every_ten : Timer.Timer
every_ten = record {
  init_time = 3;
  peri_time = 10;
  is_started = false;
  armed = (0, 0);
  expirations = 0;
  place = Timer.returned;
  calls = 0;
}

-- One call, and a second expiration that `poll` has reported.
abbrev polled : List Event
polled =
    Timer.advance Timer.ready
    ∷ Timer.expire
    ∷ Timer.advance Timer.ready
    ∷ Timer.advance Timer.ready
    ∷ Timer.advance Timer.ready
    ∷ Timer.advance Timer.ready
    ∷ Timer.expire
    ∷ Timer.advance Timer.ready
    ∷ []

-- The thread reads, calls, and leaves the loop.
abbrev going_on : List Event
going_on = Timer.advance Timer.ready ∷ Timer.advance Timer.ready ∷ Timer.advance Timer.ready ∷ []

called_once : (run polled (start_timer every_ten)).calls ≡ 1
unfolding run start_timer
called_once = refl

in_read : (run polled (start_timer every_ten)).place ≡ Timer.reading
unfolding run start_timer
in_read = refl

called_twice : (run (Timer.clear ∷ going_on) (run polled (start_timer every_ten))).calls ≡ 2
unfolding run start_timer
called_twice = refl

run-clear_example :
    (1 ≤ (run (Timer.clear ∷ going_on) (run polled (start_timer every_ten))).calls)
    × ((run (Timer.clear ∷ going_on) (run polled (start_timer every_ten))).calls ≤ 2)
unfolding run start_timer
run-clear_example = Stopping.run-clear going_on (run polled (start_timer every_ten))

run-disarm_example :
    ((run
        (Timer.disarm ∷ Timer.clear ∷ Timer.expire ∷ going_on)
        (run polled (start_timer every_ten))).place
      ≡ Timer.reading)
    × ((run
          (Timer.disarm ∷ Timer.clear ∷ Timer.expire ∷ going_on)
          (run polled (start_timer every_ten))).calls
        ≡ 1)
unfolding run start_timer
run-disarm_example =
    Stopping.run-disarm (Timer.clear ∷ Timer.expire ∷ going_on) (run polled (start_timer every_ten))
      in_read ((cc, cc), ((cc, cc), ((cc, cc), ((cc, cc), ((cc, cc), tt)))))
