-- ===== src/Pool/Fifo.antt =====
-- The order of the tasks of src/reactorpool/TaskQueue.cc.
use mathlib.Core.List.{append_assoc}
use simple_search_enginer.Prelude.{
  ℕ, ◌≡◌, ◌≢◌, refl, sym, ap, ◌∙◌, Bool, [], ◌∷◌, ◌++◌, arith, length,
}
use simple_search_enginer.Pool.{
  Task, TaskQueue, init, is_full, Pushed, Popped, push, push_now, pop, set_clear, System,
}
use simple_search_enginer.Pool.Steps
use simple_search_enginer.Pool.Steps.{Step, Reach}

-- What `push` and `pop` do where they go on.
pub push-added :
    (t : Task) (q : TaskQueue) {q' : TaskQueue}
    → push t q ≡ Pushed.added q'
    → (q'.que ≡ q.que ++ (t ∷ [])) × (q'.capacity ≡ q.capacity) × (length q.que ≢ q.capacity)
unfolding push push_now is_full
push-added t q h = ground arith

pub pop-popped :
    (q : TaskQueue) (t : Task) {q' : TaskQueue}
    → pop q ≡ Popped.popped t q'
    → (q.que ≡ t ∷ q'.que) × (q'.capacity ≡ q.capacity)
unfolding pop
pop-popped q t h = ground arith

pub pop-empty : (q : TaskQueue) → pop q ≡ Popped.empty → q.que ≡ []
unfolding pop
pop-empty q h = ground arith

-- Every task that was pushed is in the queue or was popped, in the order of the pushes.
abbrev pub InOrder : System → Type 0
InOrder s = s.accepted ≡ s.started ++ s.queue.que

Step-InOrder :
    {n : ℕ} {spurious : Bool} {s t : System} → Step n spurious s t → InOrder s → InOrder t
unfolding push_now set_clear
Step-InOrder {s = s} (Steps.add t p held e) h =
    let (que, _, _) = push-added t s.queue e in
    ap (◌++ (t ∷ [])) h ∙ append_assoc s.started s.queue.que (t ∷ []) ∙ ap (s.started ++◌) (sym que)
Step-InOrder (Steps.block t p held e) h = h
Step-InOrder {s = s} (Steps.resume t p held) h =
    ap (◌++ (t ∷ [])) h ∙ append_assoc s.started s.queue.que (t ∷ [])
Step-InOrder (Steps.rouse t sp p) h = h
Step-InOrder (Steps.notify i lt p w) h = h
Step-InOrder (Steps.notify_none p w) h = h
Step-InOrder (Steps.enter i lt w x) h = h
Step-InOrder (Steps.leave i lt w x) h = h
Step-InOrder (Steps.find_empty i lt w held e) h = h
Step-InOrder (Steps.sleep i lt w) h = h
Step-InOrder (Steps.stir i lt sp w) h = h
Step-InOrder {s = s} (Steps.take i t {q} lt w held e) h =
    let (que, _) = pop-popped s.queue t e in
    h ∙ ap (s.started ++◌) que ∙ sym (append_assoc s.started (t ∷ []) q.que)
Step-InOrder (Steps.give_up i lt w held e) h = h
Step-InOrder (Steps.run i t lt w) h = h
Step-InOrder (Steps.exit p e) h = h
Step-InOrder (Steps.clear p) h = h
Step-InOrder (Steps.wake_all p) h = h

-- The tasks are started in the order in which they were accepted, each at most once: those that
-- were started, followed by those in the queue, are the tasks that were accepted, in every state
-- that the threads reach, by whatever steps.
pub Reach-InOrder :
    {n : ℕ} {spurious : Bool} {capacity : ℕ} {s : System} → Reach n spurious capacity s → InOrder s
unfolding init
Reach-InOrder Steps.begin = refl
Reach-InOrder (Steps.then_ r step) = Step-InOrder step (Reach-InOrder r)
