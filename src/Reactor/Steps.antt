-- ===== src/Reactor/Steps.antt =====
-- The steps of the threads around the pending functors of src/reactorpool/EventLoop.cc.
use simple_search_enginer.Prelude.{ℕ, suc, ◌+◌, ◌<◌, ◌≡◌, List, [], ◌∷◌, ◌++◌}
use simple_search_enginer.Reactor.{Pending, Turn, quiet, push_functor, handle_read, swap_functors}

pub data Step (s : Pending) : Pending → Type 0 where
  -- `runInLoop`, from any thread, a functor that is running included
  push : (f : ℕ) → Step s (push_functor f s)
  wakeup : (n : ℕ) → s.unwoken ≡ suc n → Step s (record s { unwoken = n; counter = s.counter + 1 })
  -- `waitEpollFd`, when the counter of `_eventfd` is not 0
  read : s.turn ≡ Turn.idle → 0 < s.counter → Step s (handle_read s)
  -- `doPendingFunctors`
  swap : s.turn ≡ Turn.swapping → Step s (swap_functors s)
  run :
      (f : ℕ) (fs : List ℕ)
      → s.turn ≡ Turn.running (f ∷ fs)
      → Step s (record s { turn = Turn.running fs; ran = s.ran ++ (f ∷ []) })
  rest : s.turn ≡ Turn.running [] → Step s (record s { turn = Turn.idle })

pub data Reach : Pending → Type 0 where
  begin : Reach quiet
  then_ : {s t : Pending} → Reach s → Step s t → Reach t
