-- ===== src/Reactor/Functors.antt =====
-- The functors that are handed to src/reactorpool/EventLoop.cc: each runs, in order.
use mathlib.Core.List.{append_assoc, append-nil}
use simple_search_enginer.Prelude.{
  ℕ, ◌+◌, ◌<◌, ◌≡◌, ◌≢◌, refl, sym, ap, ◌∙◌, ◌⊎◌, inl, inr, List, [], ◌∷◌, ◌++◌, arith,
}
use simple_search_enginer.Reactor.{Pending, Turn, push_functor, handle_read, swap_functors}
use simple_search_enginer.Reactor.Steps
use simple_search_enginer.Reactor.Steps.{Step, Reach}

-- What the loop has taken and not yet run.
abbrev pub taken : Turn → List ℕ
taken Turn.idle = []
taken Turn.swapping = []
taken (Turn.running fs) = fs

-- The functors run in the order in which they were added, each at most once; and one that waits
-- has the counter above zero, or a thread about to raise it, or the loop about to take it.
pub record IsServed (s : Pending) : Type 0 where
  pub order : s.added ≡ s.ran ++ (taken s.turn ++ s.functors)
  pub awaited : (s.functors ≡ []) ⊎ ((0 < s.counter + s.unwoken) ⊎ (s.turn ≡ Turn.swapping))

-- A loop that was not about to swap leaves the others to see to the functors.
awaited-kept :
    {s : Pending} (turn : Turn)
    → IsServed s
    → s.turn ≢ Turn.swapping
    → (s.functors ≡ []) ⊎ ((0 < s.counter + s.unwoken) ⊎ (turn ≡ Turn.swapping))
awaited-kept turn h other = elim h.awaited [
  | inl e ↦ inl e
  | inr (inl e) ↦ inr (inl e)
  | inr (inr e) ↦ absurd (other e)
]

Step-IsServed : {s t : Pending} → Step s t → IsServed s → IsServed t
unfolding push_functor handle_read swap_functors
Step-IsServed {s = s} (Steps.push f) h = record {
  order =
      ap (◌++ (f ∷ [])) h.order
      ∙ append_assoc s.ran (taken s.turn ++ s.functors) (f ∷ [])
      ∙ ap (s.ran ++◌) (append_assoc (taken s.turn) s.functors (f ∷ []));
  awaited = inr (inl (omega arith));
}
Step-IsServed {s = s} (Steps.wakeup n e) h = record {
  order = h.order;
  awaited = inr (inl (omega arith));
}
Step-IsServed {s = s} (Steps.read e lt) h = record {
  order = h.order ∙ ap (λ x. s.ran ++ (taken x ++ s.functors)) e;
  awaited = inr (inr refl);
}
Step-IsServed {s = s} (Steps.swap e) h = record {
  order =
      h.order
      ∙ ap (λ x. s.ran ++ (taken x ++ s.functors)) e
      ∙ ap (s.ran ++◌) (sym (append-nil s.functors));
  awaited = inl refl;
}
Step-IsServed {s = s} (Steps.run f fs e) h = record {
  order =
      h.order
      ∙ ap (λ x. s.ran ++ (taken x ++ s.functors)) e
      ∙ sym (append_assoc s.ran (f ∷ []) (fs ++ s.functors));
  awaited = awaited-kept (Turn.running fs) h (λ q. cc (e, q));
}
Step-IsServed {s = s} (Steps.rest e) h = record {
  order = h.order ∙ ap (λ x. s.ran ++ (taken x ++ s.functors)) e;
  awaited = awaited-kept Turn.idle h (λ q. cc (e, q));
}

-- In every state that the threads reach, the functors that have run, those that the loop has taken
-- and those that wait are the ones that were added, in that order; and if one waits, the loop is
-- about to take it, or the counter that wakes the loop is above zero, or a thread is about to
-- raise it: no functor is lost.
pub Reach-IsServed : {s : Pending} → Reach s → IsServed s
Reach-IsServed Steps.begin = record { order = refl; awaited = inl refl }
Reach-IsServed (Steps.then_ r step) = Step-IsServed step (Reach-IsServed r)
