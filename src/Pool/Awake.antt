-- ===== src/Pool/Awake.antt =====
-- The notifications of src/reactorpool/TaskQueue.cc: none is lost while the threads run.
use simple_search_enginer.Prelude.{
  ℕ, ◌≤◌, ◌<◌, ◌≡◌, ◌≢◌, refl, sym, ◌∙◌, subst, ◌⊎◌, inl, inr, Bool, true, false, List, [], ◌∷◌,
  ◌++◌, arith,
}
use simple_search_enginer.Pool.{
  Task, init, push_now, set_clear, signal_full, wake, update, System, Producer, Worker,
}
use simple_search_enginer.Pool.Steps
use simple_search_enginer.Pool.Steps.{Step, Reach}
use simple_search_enginer.Pool.Fifo.{pop-empty}

-- A thread that will look at the queue again without being woken.
abbrev pub IsAwake : Worker → Type 0
IsAwake Worker.waiting = ⊥
IsAwake Worker.finished = ⊥
IsAwake Worker.outside = Unit
IsAwake Worker.testing = Unit
IsAwake Worker.falling = Unit
IsAwake (Worker.running t) = Unit

-- While the pool runs, a queue with tasks has a thread that is awake, or is about to wake one.
abbrev pub Attended : ℕ → List Task → (ℕ → Worker) → Producer → Type 0
Attended n que f p = (que ≡ []) ⊎ ((p ≡ Producer.notifying) ⊎ ((i : ℕ) × (i < n) × IsAwake (f i)))

record NoneLost (n : ℕ) (held : Bool) (que : List Task) (f : ℕ → Worker) (p : Producer) (x : Bool)
    : Type 0 where
  empty : held ≡ true → que ≡ []
  holds : (i : ℕ) → i < n → f i ≡ Worker.falling → held ≡ true
  alone : (i j : ℕ) → i < n → j < n → f i ≡ Worker.falling → f j ≡ Worker.falling → i ≡ j
  alive : x ≡ false → (i : ℕ) → i < n → f i ≢ Worker.finished
  attended : x ≡ false → Attended n que f p

update-cases :
    (f : ℕ → Worker) (i : ℕ) (w : Worker) (j : ℕ)
    → ((j ≡ i) × (update f i w j ≡ w)) ⊎ ((j ≢ i) × (update f i w j ≡ f j))
update-cases f i w j = ground arith

update_self : (f : ℕ → Worker) (i : ℕ) (w : Worker) → update f i w i ≡ w
update_self f i w = ground arith

-- A worker that is not put into a state is in it only if it was.
update-was : (f : ℕ → Worker) (i : ℕ) (w v : Worker) (j : ℕ) → w ≢ v → update f i w j ≡ v → f j ≡ v
update-was f i w v j ne e = elim (update-cases f i w j) [
  | inl same ↦ absurd (ne (sym same.1 ∙ e))
  | inr other ↦ sym other.1 ∙ e
]

module _ {n : ℕ} {held : Bool} {que : List Task} {f : ℕ → Worker} {p : Producer} {x : Bool}
    (h : NoneLost n held que f p x) where
  -- A thread goes on, whatever else the step changes.
  moved :
      (i : ℕ) (w : Worker) (que' : List Task) (p' : Producer)
      → i < n
      → IsAwake w
      → w ≢ Worker.falling
      → (held ≡ true → que' ≡ [])
      → NoneLost n held que' (update f i w) p' x
  moved i w que' p' lt awake up still = record {
    empty = still;
    holds = λ j l e. h.holds j l (update-was f i w Worker.falling j up e);
    alone = λ j k l m e d.
        h.alone j k l m (update-was f i w Worker.falling j up e)
          (update-was f i w Worker.falling k up d);
    alive = λ r j l e.
        h.alive r j l (update-was f i w Worker.finished j (λ q. subst IsAwake q awake) e);
    attended = λ r. inr (inr (i, lt, subst IsAwake (sym (update_self f i w)) awake));
  }

  -- The queue or the thread that pushes changes, and no other thread.
  kept :
      (que' : List Task) (p' : Producer)
      → (held ≡ true → que' ≡ [])
      → (x ≡ false → Attended n que' f p')
      → NoneLost n held que' f p' x
  kept que' p' still seen = record {
    empty = still;
    holds = h.holds;
    alone = h.alone;
    alive = h.alive;
    attended = seen;
  }

abbrev Sound : ℕ → System → Type 0
Sound n s = NoneLost n s.held s.queue.que s.workers s.producer s.is_exit

IsAwake-intro : (w : Worker) → w ≢ Worker.waiting → w ≢ Worker.finished → IsAwake w
IsAwake-intro Worker.outside a b = tt
IsAwake-intro Worker.testing a b = tt
IsAwake-intro Worker.falling a b = tt
IsAwake-intro Worker.waiting a b = absurd (a refl)
IsAwake-intro (Worker.running t) a b = tt
IsAwake-intro Worker.finished a b = absurd (b refl)

wake-falling : (w : Worker) → wake w ≡ Worker.falling → w ≡ Worker.falling
unfolding wake
wake-falling w e = ground arith

wake-finished : (w : Worker) → wake w ≡ Worker.finished → w ≡ Worker.finished
unfolding wake
wake-finished w e = ground arith

wake-IsAwake : (w : Worker) → IsAwake w → IsAwake (wake w)
unfolding wake
wake-IsAwake Worker.outside a = tt
wake-IsAwake Worker.testing a = tt
wake-IsAwake Worker.falling a = tt
wake-IsAwake Worker.waiting a = tt
wake-IsAwake (Worker.running t) a = tt
wake-IsAwake Worker.finished a = a

-- What was not about to be notified stays attended.
Attended-unless :
    {n : ℕ} {que : List Task} (f : ℕ → Worker) {p : Producer} (p' : Producer)
    → p ≢ Producer.notifying
    → Attended n que f p
    → Attended n que f p'
Attended-unless f p' ne (inl e) = inl e
Attended-unless f p' ne (inr (inl e)) = absurd (ne e)
Attended-unless f p' ne (inr (inr a)) = inr (inr a)

module _ {n : ℕ} (s : System) (h : Sound n s) where
  fall :
      (i : ℕ)
      → i < n
      → s.held ≡ false
      → s.queue.que ≡ []
      → NoneLost n true s.queue.que (update s.workers i Worker.falling) s.producer s.is_exit
  fall i lt open_ none_left =
      let only : (j : ℕ) → j < n → update s.workers i Worker.falling j ≡ Worker.falling → j ≡ i =
        λ j l e. elim (update-cases s.workers i Worker.falling j) [
          | inl same ↦ same.0
          | inr other ↦ absurd (cc (h.holds j l (sym other.1 ∙ e), open_))
        ] in
      record {
        empty = λ r. none_left;
        holds = λ j l e. refl;
        alone = λ j k l m e d. only j l e ∙ sym (only k m d);
        alive = λ r j l e.
            h.alive r j l (update-was s.workers i Worker.falling Worker.finished j (λ q. cc) e);
        attended = λ r. inl none_left;
      }

  drowse :
      (i : ℕ)
      → i < n
      → s.workers i ≡ Worker.falling
      → NoneLost n false s.queue.que (update s.workers i Worker.waiting) s.producer s.is_exit
  drowse i lt w =
      let none_left = h.empty (h.holds i lt w) in
      let no_more : (j : ℕ) → j < n → update s.workers i Worker.waiting j ≢ Worker.falling =
        λ j l e. elim (update-cases s.workers i Worker.waiting j) [
          | inl same ↦ cc (same.1, e)
          | inr other ↦ other.0 (h.alone j i l lt (sym other.1 ∙ e) w)
        ] in
      record {
        empty = λ r. none_left;
        holds = λ j l e. absurd (no_more j l e);
        alone = λ j k l m e d. absurd (no_more j l e);
        alive = λ r j l e.
            h.alive r j l (update-was s.workers i Worker.waiting Worker.finished j (λ q. cc) e);
        attended = λ r. inl none_left;
      }

  end_thread :
      (i : ℕ)
      → s.is_exit ≡ true
      → NoneLost n s.held s.queue.que (update s.workers i Worker.finished) s.producer s.is_exit
  end_thread i x =
      let was : (j : ℕ)
          → update s.workers i Worker.finished j ≡ Worker.falling
          → s.workers j ≡ Worker.falling =
        λ j e. update-was s.workers i Worker.finished Worker.falling j (λ q. cc) e in
      record {
        empty = h.empty;
        holds = λ j l e. h.holds j l (was j e);
        alone = λ j k l m e d. h.alone j k l m (was j e) (was k d);
        alive = λ r. absurd (cc (x, r));
        attended = λ r. absurd (cc (x, r));
      }

  start_exit : NoneLost n s.held s.queue.que s.workers s.producer true
  start_exit = record {
    empty = h.empty;
    holds = h.holds;
    alone = h.alone;
    alive = λ r. cc;
    attended = λ r. cc;
  }

  all_woken : NoneLost n s.held s.queue.que (λ i. wake (s.workers i)) s.producer s.is_exit
  all_woken = record {
    empty = h.empty;
    holds = λ j l e. h.holds j l (wake-falling (s.workers j) e);
    alone = λ j k l m e d.
        h.alone j k l m (wake-falling (s.workers j) e) (wake-falling (s.workers k) d);
    alive = λ r j l e. h.alive r j l (wake-finished (s.workers j) e);
    attended = λ r. elim (h.attended r) [
      | inl e ↦ inl e
      | inr (inl e) ↦ inr (inl e)
      | inr (inr a) ↦ inr (inr (a.0, a.1, wake-IsAwake (s.workers a.0) a.2))
    ];
  }

Step-Sound :
    {n : ℕ} {spurious : Bool} {s t : System} → 1 ≤ n → Step n spurious s t → Sound n s → Sound n t
unfolding push_now set_clear
Step-Sound {s = s} some_thread (Steps.add t {q} p held e) h =
    kept h q.que Producer.notifying (λ r. absurd (cc (r, held))) (λ r. inr (inl refl))
Step-Sound {s = s} some_thread (Steps.block t p held e) h =
    kept h s.queue.que (Producer.blocked t) h.empty
      (λ r. Attended-unless s.workers (Producer.blocked t) (λ q. cc (p, q)) (h.attended r))
Step-Sound {s = s} some_thread (Steps.resume t p held) h =
    kept h (s.queue.que ++ (t ∷ [])) Producer.notifying (λ r. absurd (cc (r, held)))
      (λ r. inr (inl refl))
Step-Sound {s = s} some_thread (Steps.rouse t sp p) h =
    kept h s.queue.que (Producer.signalled t) h.empty
      (λ r. Attended-unless s.workers (Producer.signalled t) (λ q. cc (p, q)) (h.attended r))
Step-Sound {s = s} some_thread (Steps.notify i lt p w) h =
    moved h i Worker.testing s.queue.que Producer.ready lt tt (λ q. cc) h.empty
Step-Sound {s = s} some_thread (Steps.notify_none p w) h =
    kept h s.queue.que Producer.ready h.empty (λ r. inr (
      inr (
        0,
        omega arith,
        IsAwake-intro (s.workers 0) (w 0 (omega arith)) (h.alive r 0 (omega arith)),
      )))
Step-Sound {s = s} some_thread (Steps.enter i lt w x) h =
    moved h i Worker.testing s.queue.que s.producer lt tt (λ q. cc) h.empty
Step-Sound {s = s} some_thread (Steps.leave i lt w x) h = end_thread s h i x
Step-Sound {s = s} some_thread (Steps.find_empty i lt w held e) h =
    fall s h i lt held (pop-empty s.queue e)
Step-Sound {s = s} some_thread (Steps.sleep i lt w) h = drowse s h i lt w
Step-Sound {s = s} some_thread (Steps.stir i lt sp w) h =
    moved h i Worker.testing s.queue.que s.producer lt tt (λ q. cc) h.empty
Step-Sound {s = s} some_thread (Steps.take i t {q} lt w held e) h =
    moved h i (Worker.running t) q.que (signal_full s.producer) lt tt (λ r. cc)
      (λ r. absurd (cc (r, held)))
Step-Sound {s = s} some_thread (Steps.give_up i lt w held e) h =
    moved h i Worker.outside s.queue.que s.producer lt tt (λ q. cc) h.empty
Step-Sound {s = s} some_thread (Steps.run i t lt w) h =
    moved h i Worker.outside s.queue.que s.producer lt tt (λ q. cc) h.empty
Step-Sound {s = s} some_thread (Steps.exit p e) h = start_exit s h
Step-Sound {s = s} some_thread (Steps.clear p) h = h
Step-Sound {s = s} some_thread (Steps.wake_all p) h = all_woken s h

Reach-Sound :
    {n capacity : ℕ} {spurious : Bool} {s : System}
    → 1 ≤ n
    → Reach n spurious capacity s
    → Sound n s
unfolding init
Reach-Sound some_thread Steps.begin = record {
  empty = λ r. refl;
  holds = λ i l e. cc;
  alone = λ i j l m e d. cc;
  alive = λ r i l e. cc;
  attended = λ r. inl refl;
}
Reach-Sound some_thread (Steps.then_ r step) =
    Step-Sound some_thread step (Reach-Sound some_thread r)

-- In every state that a pool with at least one thread reaches before `stop` ends its loop, a queue
-- that holds tasks has a thread that looks at it again without being woken, or the thread that
-- pushed is about to wake one: no notification is lost.
pub Reach-Attended :
    {n capacity : ℕ} {spurious : Bool} {s : System}
    → 1 ≤ n
    → Reach n spurious capacity s
    → s.is_exit ≡ false
    → Attended n s.queue.que s.workers s.producer
Reach-Attended some_thread r running = (Reach-Sound some_thread r).attended running
