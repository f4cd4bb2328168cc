-- ===== src/Dictionary/Best.antt =====
-- The words that `Dictionary::doQuery` of src/recommander/Dictionary.cc takes from its queue.
use simple_search_enginer.Prelude.{
  ℕ, zero, suc, ◌≤◌, ◌≡◌, refl, sym, ap, ◌∙◌, subst, ◌⊎◌, inl, inr, false, some, List, [], ◌∷◌,
  ◌++◌, map, Bytes, arith, length, All, Option-cases,
}
use mathlib.Core.List.{append_assoc, append-nil, Permᴰ}
use mathlib.Core.List.Permᴰ
use simple_search_enginer.Dictionary.{Candidate, PriorityQueue, less, is_empty, skip, collect}
use simple_search_enginer.Dictionary.Popping.{
  Occurs, Occurs-left, Occurs-right, List-cases, All-Permᴰ, skip-All,
}

-- None is less than a later one.
abbrev pub Ranked : List Candidate → Type 0
Ranked [] = Unit
Ranked (p ∷ ps) = All (λ d. less p d ≡ false) ps × Ranked ps

-- The candidate's word is in the result, or the result is full of candidates not less than it.
abbrev pub IsServed : ℕ → List Candidate → List Bytes → Candidate → Type 0
IsServed n picks out c =
    Occurs c.word out ⊎ ((length picks ≡ n) × All (λ p. less p c ≡ false) picks)

pub every {ℓ} : {A : Type ℓ} (P : A → Type 0) (xs : List A) → ((a : A) → P a) → All P xs
every P [] h = tt
every P (x ∷ xs) h = (h x, every P xs h)

both {ℓ} :
    {A : Type ℓ} (P Q R : A → Type 0) (xs : List A)
    → ((a : A) → P a → Q a → R a)
    → All P xs
    → All Q xs
    → All R xs
both P Q R [] f h k = tt
both P Q R (x ∷ xs) f h k = (f x h.0 k.0, both P Q R xs f h.1 k.1)

module _ (queues : PriorityQueue) where
  open queues use {Queue, contents, empty, push, top, pop, top_none, top_some}

  pub record Picked (n : ℕ) (ret : List Bytes) (q : Queue) (out : List Bytes) : Type 1 where
    pub picks : List Candidate
    pub out_eq : out ≡ ret ++ map (λ (c : Candidate). c.word) picks
    pub few : length picks ≤ n
    pub ranked : Ranked picks
    pub served : All (IsServed n picks out) (contents q)
    pub origin : (P : Candidate → Type 0) → All P (contents q) → All P picks

  nothing :
      (n : ℕ) (ret : List Bytes) (q : Queue) (out : List Bytes)
      → ret ≡ out
      → All (IsServed n [] out) (contents q)
      → Picked n ret q out
  nothing n ret q out e all = record {
    picks = [];
    out_eq = sym e ∙ sym (append-nil ret);
    few = omega arith;
    ranked = tt;
    served = all;
    origin = λ P h. tt;
  }

  -- One pick more, before the picks of the rounds that follow.
  pick :
      (n : ℕ) (ret : List Bytes) (q q' q'' : Queue) (t : Candidate) (out : List Bytes)
      → skip queues ret q ≡ some q'
      → Permᴰ (contents q') (t ∷ contents q'')
      → All (λ d. less t d ≡ false) (contents q'')
      → Picked n (ret ++ (t.word ∷ [])) q'' out
      → Picked (suc n) ret q out
  pick n ret q q' q'' t out skipped perm best later =
      let word = λ (c : Candidate). c.word in
      let parts : out ≡ ret ++ map word (t ∷ later.picks) =
        later.out_eq ∙ append_assoc ret (t.word ∷ []) (map word later.picks) in
      record {
        picks = t ∷ later.picks;
        out_eq = parts;
        few = omega (arith, later.few);
        ranked = (later.origin (λ d. less t d ≡ false) best, later.ranked);
        served =
            (skip-All queues (IsServed (suc n) (t ∷ later.picks) out) ret q q' skipped).1
              (λ c o. inl (subst (Occurs c.word) (sym parts) (Occurs-left c.word ret _ o)))
              (All-Permᴰ _ (Permᴰ.symm perm) (
                inl (subst (Occurs t.word) (sym parts) (Occurs-right t.word ret _ (inl refl))),
                both (λ d. less t d ≡ false) (IsServed n later.picks out) _ (contents q'')
                    (λ c le s. elim s [
                      | inl o ↦ inl o
                      | inr full ↦ inr (ap suc full.0, (le, full.1))
                    ])
                    best later.served,
              ));
        origin = λ P h.
            let all = All-Permᴰ P perm ((skip-All queues P ret q q' skipped).0 h) in
            (all.0, later.origin P all.1);
      }

  -- What `collect` returns.
  pub collect-Picked :
      (n : ℕ) (ret : List Bytes) (q : Queue) (out : List Bytes)
      → collect queues n ret q ≡ some out
      → Picked n ret q out
  unfolding collect is_empty
  collect-Picked zero ret q out run =
      let all = every (IsServed zero [] out) (contents q) (λ c. inr (refl, tt)) in
      nothing zero ret q out (ground (arith, run)) all
  collect-Picked (suc n) ret q out run = elim (List-cases (contents q)) [
    | inl none_left ↦
        nothing (suc n) ret q out (ground (arith, run, none_left))
          (subst (All (IsServed (suc n) [] out)) (sym none_left) tt)
    | inr (c, cs, e) ↦ elim (Option-cases (skip queues ret q)) [
      | inl stuck ↦ absurd (ground (arith, run, stuck, e))
      | inr (q', skipped) ↦ elim (List-cases (contents q')) [
        | inl gone ↦ absurd (ground (arith, run, skipped, e, top_none q' gone))
        | inr (d, ds, f) ↦
            let (t, q'', at, popped, perm, best) = top_some q' d ds f in
            pick n ret q q' q'' t out skipped perm best
              (collect-Picked n (ret ++ (t.word ∷ [])) q'' out (rw (e, skipped, at, popped) at run))
      ]
    ]
  ]
