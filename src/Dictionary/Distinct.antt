-- ===== src/Dictionary/Distinct.antt =====
-- `Dictionary::doQuery` of src/recommander/Dictionary.cc where no word is in the queue twice.
use simple_search_enginer.Prelude.{
  ℕ, zero, suc, ◌+◌, ◌≡◌, ◌≢◌, refl, sym, ap, ◌∙◌, subst, inl, inr, some, List, [], ◌∷◌, ◌++◌,
  Bytes, arith, length, length-append, min, All, All-map, if_neg,
}
use mathlib.Core.List.{Permᴰ}
use simple_search_enginer.Dictionary.{Candidate, PriorityQueue, is_empty, skip, collect}
use simple_search_enginer.Dictionary.Popping.{Occurs, List-cases, All-Permᴰ}

-- No word stands twice.
abbrev pub Different : List Candidate → Type 0
Different [] = Unit
Different (c ∷ cs) = All (λ (d : Candidate). c.word ≢ d.word) cs × Different cs

pub Different-Permᴰ : {xs ys : List Candidate} → Permᴰ xs ys → Different xs → Different ys
Different-Permᴰ Permᴰ.nil h = h
Different-Permᴰ (Permᴰ.cons {a} {b} {l₁} {l₂} e p) h = (
  All-Permᴰ (λ (d : Candidate). b.word ≢ d.word) p
      (subst (λ (u : Candidate). All (λ (d : Candidate). u.word ≢ d.word) l₁) e h.0),
  Different-Permᴰ p h.1,
)
Different-Permᴰ (Permᴰ.swap {a} {b} {a'} {b'} {l} e f) h = (
  (
    λ g. h.0.0 (ap (λ (c : Candidate). c.word) e ∙ sym g ∙ ap (λ (c : Candidate). c.word) (sym f)),
    subst (λ (u : Candidate). All (λ (d : Candidate). u.word ≢ d.word) l) f h.1.0,
  ),
  (subst (λ (u : Candidate). All (λ (d : Candidate). u.word ≢ d.word) l) e h.0.1, h.1.1),
)
Different-Permᴰ (Permᴰ.trans p q) h = Different-Permᴰ q (Different-Permᴰ p h)

pub length-Permᴰ : {xs ys : List Candidate} → Permᴰ xs ys → length xs ≡ length ys
length-Permᴰ Permᴰ.nil = refl
length-Permᴰ (Permᴰ.cons e p) = ap suc (length-Permᴰ p)
length-Permᴰ (Permᴰ.swap e f) = refl
length-Permᴰ (Permᴰ.trans p q) = length-Permᴰ p ∙ length-Permᴰ q

module _ (queues : PriorityQueue) where
  open queues use {Queue, contents, top, pop, top_some}

  -- Nothing is popped where no word was found before.
  skip-Distinct :
      (rs : List Bytes) (q : Queue) (c : Candidate) (cs : List Candidate)
      → contents q ≡ c ∷ cs
      → All (λ (d : Candidate). ¬ Occurs d.word rs) (contents q)
      → skip queues rs q ≡ some q
  unfolding skip
  skip-Distinct [] q c cs e fresh = refl
  skip-Distinct (r ∷ rs) q c cs e fresh =
      let (t, q', at, popped, perm, _) = top_some q c cs e in
      let other = (All-Permᴰ (λ (d : Candidate). ¬ Occurs d.word (r ∷ rs)) perm fresh).0 in
      let rest =
        All-map (λ (d : Candidate). ¬ Occurs d.word (r ∷ rs))
          (λ (d : Candidate). ¬ Occurs d.word rs) (contents q) (λ d n o. n (inr o)) fresh in
      rw (at, if_neg _ (λ (same : r ≡ t.word). other (inl (sym same))))
        (skip-Distinct rs q c cs e rest)

  Occurs-last :
      (w v : Bytes) (rs : List Bytes) → ¬ Occurs w rs → v ≢ w → ¬ Occurs w (rs ++ (v ∷ []))
  Occurs-last w v [] n other = λ o. elim o [ inl e ↦ other (sym e) | inr o ↦ o ]
  Occurs-last w v (r ∷ rs) n other =
      λ o. elim o [ inl e ↦ n (inl e) | inr o ↦ Occurs-last w v rs (λ u. n (inr u)) other o ]

  fresh_next :
      (rs : List Bytes) (t : Candidate) (cs : List Candidate)
      → All (λ (d : Candidate). ¬ Occurs d.word rs) cs
      → All (λ (d : Candidate). t.word ≢ d.word) cs
      → All (λ (d : Candidate). ¬ Occurs d.word (rs ++ (t.word ∷ []))) cs
  fresh_next rs t [] f g = tt
  fresh_next rs t (c ∷ cs) f g = (Occurs-last c.word t.word rs f.0 g.0, fresh_next rs t cs f.1 g.1)

  -- Then `collect` never faults and finds as many words as it can.
  pub collect_total :
      (n : ℕ) (ret : List Bytes) (q : Queue)
      → Different (contents q)
      → All (λ (d : Candidate). ¬ Occurs d.word ret) (contents q)
      → (out : List Bytes) × (collect queues n ret q ≡ some out)
        × (length out ≡ length ret + min n (length (contents q)))
  unfolding collect is_empty
  collect_total zero ret q apart fresh = (ret, refl, omega arith)
  collect_total (suc n) ret q apart fresh = elim (List-cases (contents q)) [
    | inl none_left ↦ (ret, rw none_left refl, omega (arith, ap length none_left))
    | inr (c, cs, e) ↦
        let (t, q', at, popped, perm, _) = top_some q c cs e in
        let skipped = skip-Distinct ret q c cs e fresh in
        let apart' = Different-Permᴰ perm apart in
        let fresh' = (All-Permᴰ (λ (d : Candidate). ¬ Occurs d.word ret) perm fresh).1 in
        let (out, ran, len) =
          collect_total n (ret ++ (t.word ∷ [])) q' apart'.1
            (fresh_next ret t (contents q') fresh' apart'.0) in
        (
          out,
          rw (e, skipped, at, popped) ran,
          omega (arith, len, length-append ret (t.word ∷ []), length-Permᴰ perm),
        )
  ]
