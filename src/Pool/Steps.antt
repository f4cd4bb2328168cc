-- ===== src/Pool/Steps.antt =====
-- The steps of the threads of src/reactorpool/Threadpool.cc, in any order.
use simple_search_enginer.Prelude.{ℕ, ◌≡◌, ◌≢◌, ◌<◌, Bool, true, false, [], ◌∷◌, ◌++◌}
use simple_search_enginer.Pool.{
  Task, TaskQueue, Pushed, Popped, push, push_now, pop, set_clear, is_empty, Producer, Worker,
  Stopper, System, update, signal_full, wake, fresh,
}

-- `n` threads; `spurious` says whether a wait can end without a notification.
pub data Step (n : ℕ) (spurious : Bool) (s : System) : System → Type 0 where
  -- `addTask`
  add :
      (t : Task) {q : TaskQueue}
      → s.producer ≡ Producer.ready
      → s.held ≡ false
      → push t s.queue ≡ Pushed.added q
      → Step n spurious s
          (record s { queue = q; producer = Producer.notifying; accepted = s.accepted ++ (t ∷ []) })
  block :
      (t : Task)
      → s.producer ≡ Producer.ready
      → s.held ≡ false
      → push t s.queue ≡ Pushed.full
      → Step n spurious s (record s { producer = Producer.blocked t })
  resume :
      (t : Task)
      → s.producer ≡ Producer.signalled t
      → s.held ≡ false
      → Step n spurious s (record s {
        queue = push_now t s.queue;
        producer = Producer.notifying;
        accepted = s.accepted ++ (t ∷ []);
      })
  rouse :
      (t : Task)
      → spurious ≡ true
      → s.producer ≡ Producer.blocked t
      → Step n spurious s (record s { producer = Producer.signalled t })
  -- `_condEmpty.notify()` wakes one thread, if one waits.
  notify :
      (i : ℕ)
      → i < n
      → s.producer ≡ Producer.notifying
      → s.workers i ≡ Worker.waiting
      → Step n spurious s
          (record s { producer = Producer.ready; workers = update s.workers i Worker.testing })
  notify_none :
      s.producer ≡ Producer.notifying
      → ((i : ℕ) → i < n → s.workers i ≢ Worker.waiting)
      → Step n spurious s (record s { producer = Producer.ready })
  -- `wokerDoTask`
  enter :
      (i : ℕ)
      → i < n
      → s.workers i ≡ Worker.outside
      → s.is_exit ≡ false
      → Step n spurious s (record s { workers = update s.workers i Worker.testing })
  leave :
      (i : ℕ)
      → i < n
      → s.workers i ≡ Worker.outside
      → s.is_exit ≡ true
      → Step n spurious s (record s { workers = update s.workers i Worker.finished })
  find_empty :
      (i : ℕ)
      → i < n
      → s.workers i ≡ Worker.testing
      → s.held ≡ false
      → pop s.queue ≡ Popped.empty
      → Step n spurious s (record s { workers = update s.workers i Worker.falling; held = true })
  sleep :
      (i : ℕ)
      → i < n
      → s.workers i ≡ Worker.falling
      → Step n spurious s (record s { workers = update s.workers i Worker.waiting; held = false })
  stir :
      (i : ℕ)
      → i < n
      → spurious ≡ true
      → s.workers i ≡ Worker.waiting
      → Step n spurious s (record s { workers = update s.workers i Worker.testing })
  take :
      (i : ℕ) (t : Task) {q : TaskQueue}
      → i < n
      → s.workers i ≡ Worker.testing
      → s.held ≡ false
      → pop s.queue ≡ Popped.popped t q
      → Step n spurious s (record s {
        queue = q;
        producer = signal_full s.producer;
        workers = update s.workers i (Worker.running t);
        started = s.started ++ (t ∷ []);
      })
  give_up :
      (i : ℕ)
      → i < n
      → s.workers i ≡ Worker.testing
      → s.held ≡ false
      → pop s.queue ≡ Popped.cleared
      → Step n spurious s (record s { workers = update s.workers i Worker.outside })
  run :
      (i : ℕ) (t : Task)
      → i < n
      → s.workers i ≡ Worker.running t
      → Step n spurious s
          (record s { workers = update s.workers i Worker.outside; done = s.done ++ (t ∷ []) })
  -- `stop`, which looks at the queue without the mutex.
  exit :
      s.stopper ≡ Stopper.polling
      → is_empty s.queue ≡ true
      → Step n spurious s (record s { stopper = Stopper.setting; is_exit = true })
  clear :
      s.stopper ≡ Stopper.setting
      → Step n spurious s (record s { stopper = Stopper.waking; queue = set_clear s.queue })
  wake_all :
      s.stopper ≡ Stopper.waking
      → Step n spurious s
          (record s { stopper = Stopper.joining; workers = λ i. wake (s.workers i) })

-- The systems that `n` threads reach over a queue of some capacity.
pub data Reach (n : ℕ) (spurious : Bool) (capacity : ℕ) : System → Type 0 where
  begin : Reach n spurious capacity (fresh capacity)
  then_ :
      {s t : System}
      → Reach n spurious capacity s
      → Step n spurious s t
      → Reach n spurious capacity t
