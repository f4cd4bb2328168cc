-- ===== src/Pool/Runs.antt =====
-- Runs of the threads of src/reactorpool/Threadpool.cc over small queues.
use simple_search_enginer.Prelude.{
  ℕ, ◌≤◌, refl, Bool, true, false, [], ◌∷◌, arith, length, ℕ_discrete,
}
use simple_search_enginer.Pool.{
  init, is_full, is_empty, push, push_now, pop, set_clear, wake, update, fresh, System, Producer,
  Worker, Stopper,
}
use simple_search_enginer.Pool.Steps
use simple_search_enginer.Pool.Steps.{Step, Reach}
use simple_search_enginer.Pool.Fifo
use simple_search_enginer.Pool.Fifo.{InOrder}
use simple_search_enginer.Pool.Bounded
use simple_search_enginer.Pool.Awake
use simple_search_enginer.Pool.Awake.{Attended}

-- One task in a queue of capacity 1, before its notification.
abbrev one_task : System
one_task = record (fresh 1) {
  queue = record { capacity = 1; que = 7 ∷ []; clear_flag = false };
  producer = Producer.notifying;
  accepted = 7 ∷ [];
}

one_task-Reach : (spurious : Bool) → Reach 1 spurious 1 one_task
unfolding init push push_now is_full
one_task-Reach spurious = Steps.then_ Steps.begin (Steps.add 7 refl refl refl)

Reach-InOrder_example : InOrder one_task
Reach-InOrder_example = Fifo.Reach-InOrder (one_task-Reach true)

Reach-bounded_example : length one_task.queue.que ≤ 1
Reach-bounded_example = Bounded.Reach-bounded (one_task-Reach false)

Reach-Attended_example : Attended 1 one_task.queue.que one_task.workers one_task.producer
Reach-Attended_example = Awake.Reach-Attended (omega arith) (one_task-Reach true) refl

-- With a wait that ends by itself, the queue of capacity 1 gets two tasks.
abbrev two_tasks : System
two_tasks = record (fresh 1) {
  queue = record { capacity = 1; que = 7 ∷ 8 ∷ []; clear_flag = false };
  producer = Producer.notifying;
  accepted = 7 ∷ 8 ∷ [];
}

two_tasks-Reach : Reach 1 true 1 two_tasks
unfolding push push_now is_full
two_tasks-Reach =
    Steps.then_
      (Steps.then_
        (Steps.then_ (Steps.then_ (one_task-Reach true) (Steps.notify_none refl (λ i l e. cc)))
          (Steps.block 8 refl refl refl))
        (Steps.rouse 8 refl refl))
      (Steps.resume 8 refl refl)

-- `stop` wakes the threads between a thread's test and its wait, and then joins a thread that
-- nobody wakes.
abbrev asleep : ℕ → Worker
asleep =
    update (λ i. wake (update (update (λ j. Worker.outside) 0 Worker.testing) 0 Worker.falling i)) 0
      Worker.waiting

abbrev stuck : System
stuck = record (fresh 1) {
  queue = record { capacity = 1; que = []; clear_flag = true };
  workers = asleep;
  stopper = Stopper.joining;
  is_exit = true;
}

stuck-Reach : Reach 1 false 1 stuck
unfolding init pop is_empty set_clear wake ℕ_discrete
stuck-Reach =
    Steps.then_
      (Steps.then_
        (Steps.then_
          (Steps.then_
            (Steps.then_ (Steps.then_ Steps.begin (Steps.enter 0 (omega arith) refl refl))
              (Steps.find_empty 0 (omega arith) refl refl refl))
            (Steps.exit refl refl))
          (Steps.clear refl))
        (Steps.wake_all refl))
      (Steps.sleep 0 (omega arith) refl)
