-- ===== src/Pool/Bounded.antt =====
-- The capacity of the queue of src/reactorpool/TaskQueue.cc.
use simple_search_enginer.Prelude.{
  ℕ, suc, ◌≤◌, ◌<◌, ◌≡◌, refl, ap, ◌∙◌, false, [], ◌∷◌, arith, length, length-append,
}
use simple_search_enginer.Pool.{Task, init, push_now, set_clear, System, Producer}
use simple_search_enginer.Pool.Steps
use simple_search_enginer.Pool.Steps.{Step, Reach}
use simple_search_enginer.Pool.Fifo.{push-added, pop-popped}

-- The queue holds no more than its capacity, and less when the thread that pushes was woken.
pub record InBounds (capacity : ℕ) (s : System) : Type 0 where
  pub same : s.queue.capacity ≡ capacity
  pub fits : length s.queue.que ≤ capacity
  pub room : (t : Task) → s.producer ≡ Producer.signalled t → length s.queue.que < capacity

-- A pop makes room for the thread that it wakes.
Step-InBounds :
    {n capacity : ℕ} {s t : System} → Step n false s t → InBounds capacity s → InBounds capacity t
unfolding push_now set_clear
Step-InBounds {s = s} (Steps.add t {q} p held e) h =
    let (que, same, not_full) = push-added t s.queue e in
    let bound = h.fits in
    let cap = h.same in
    record {
      same = same ∙ h.same;
      fits = omega (arith, ap length que, length-append s.queue.que (t ∷ []), not_full);
      room = λ u r. cc;
    }
Step-InBounds (Steps.block t p held e) h = record { same = h.same; fits = h.fits; room = λ u r. cc }
Step-InBounds {s = s} (Steps.resume t p held) h = record {
  same = h.same;
  fits = omega (arith, length-append s.queue.que (t ∷ []), h.room t p);
  room = λ u r. cc;
}
Step-InBounds (Steps.rouse t sp p) h = cc
Step-InBounds (Steps.notify i lt p w) h = record { same = h.same; fits = h.fits; room = λ u r. cc }
Step-InBounds (Steps.notify_none p w) h = record { same = h.same; fits = h.fits; room = λ u r. cc }
Step-InBounds (Steps.enter i lt w x) h = record { same = h.same; fits = h.fits; room = h.room }
Step-InBounds (Steps.leave i lt w x) h = record { same = h.same; fits = h.fits; room = h.room }
Step-InBounds (Steps.find_empty i lt w held e) h = record {
  same = h.same;
  fits = h.fits;
  room = h.room;
}
Step-InBounds (Steps.sleep i lt w) h = record { same = h.same; fits = h.fits; room = h.room }
Step-InBounds (Steps.stir i lt sp w) h = cc
Step-InBounds {s = s} (Steps.take i t {q} lt w held e) h =
    let (que, same) = pop-popped s.queue t e in
    let shorter : length s.queue.que ≡ suc (length q.que) = ap length que in
    record {
      same = same ∙ h.same;
      fits = omega (arith, h.fits, shorter);
      room = λ u r. omega (arith, h.fits, shorter);
    }
Step-InBounds (Steps.give_up i lt w held e) h = record {
  same = h.same;
  fits = h.fits;
  room = h.room;
}
Step-InBounds (Steps.run i t lt w) h = record { same = h.same; fits = h.fits; room = h.room }
Step-InBounds (Steps.exit p e) h = record { same = h.same; fits = h.fits; room = h.room }
Step-InBounds (Steps.clear p) h = record { same = h.same; fits = h.fits; room = h.room }
Step-InBounds (Steps.wake_all p) h = record { same = h.same; fits = h.fits; room = h.room }

Reach-InBounds : {n capacity : ℕ} {s : System} → Reach n false capacity s → InBounds capacity s
unfolding init
Reach-InBounds Steps.begin = record { same = refl; fits = omega arith; room = λ u r. cc }
Reach-InBounds (Steps.then_ r step) = Step-InBounds step (Reach-InBounds r)

-- With one thread that pushes, and waits that end only when they are notified, the queue never
-- holds more tasks than its capacity.
pub Reach-bounded :
    {n capacity : ℕ} {s : System} → Reach n false capacity s → length s.queue.que ≤ capacity
Reach-bounded r = (Reach-InBounds r).fits
