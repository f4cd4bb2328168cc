-- ===== src/Dictionary/Popping.antt =====
-- What leaves the priority queue in `Dictionary::doQuery` of src/recommander/Dictionary.cc.
use simple_search_enginer.Prelude.{
  ◌≡◌, refl, sym, subst, ◌⊎◌, inl, inr, some, List, [], ◌∷◌, ◌++◌, Bytes, Bytes_discrete, arith,
  All, if_pos, if_neg,
}
use mathlib.Core.List.{Permᴰ}
use mathlib.Core.List.Permᴰ
use simple_search_enginer.Dictionary.{Candidate, PriorityQueue, skip}

-- The word is one of these.
abbrev pub Occurs : Bytes → List Bytes → Type 0
Occurs w [] = ⊥
Occurs w (r ∷ rs) = (w ≡ r) ⊎ Occurs w rs

pub Occurs-left : (w : Bytes) (rs ts : List Bytes) → Occurs w rs → Occurs w (rs ++ ts)
Occurs-left w [] ts o = absurd o
Occurs-left w (r ∷ rs) ts (inl e) = inl e
Occurs-left w (r ∷ rs) ts (inr o) = inr (Occurs-left w rs ts o)

pub Occurs-right : (w : Bytes) (rs ts : List Bytes) → Occurs w ts → Occurs w (rs ++ ts)
Occurs-right w [] ts o = o
Occurs-right w (r ∷ rs) ts o = inr (Occurs-right w rs ts o)

pub List-cases {ℓ} :
    {A : Type ℓ} (xs : List A) → (xs ≡ []) ⊎ ((a : A) × (rest : List A) × (xs ≡ a ∷ rest))
List-cases [] = inl refl
List-cases (a ∷ rest) = inr (a, rest, refl)

pub All-Permᴰ :
    (P : Candidate → Type 0) {xs ys : List Candidate} → Permᴰ xs ys → All P xs → All P ys
All-Permᴰ P Permᴰ.nil h = h
All-Permᴰ P (Permᴰ.cons e p) h = (subst P e h.0, All-Permᴰ P p h.1)
All-Permᴰ P (Permᴰ.swap e f) h = (subst P f h.1.0, (subst P e h.0, h.1.1))
All-Permᴰ P (Permᴰ.trans p q) h = All-Permᴰ P q (All-Permᴰ P p h)

module _ (queues : PriorityQueue) where
  open queues use {Queue, contents, empty, push, top, pop, top_none, top_some}

  -- Only words found before are popped.
  pub skip-All :
      (P : Candidate → Type 0) (rs : List Bytes) (q q' : Queue)
      → skip queues rs q ≡ some q'
      → (All P (contents q) → All P (contents q'))
        × (((c : Candidate) → Occurs c.word rs → P c) → All P (contents q') → All P (contents q))
  unfolding skip
  skip-All P [] q q' run =
      let e : q ≡ q' = cc in
      (subst (λ u. All P (contents u)) e, λ seen. subst (λ u. All P (contents u)) (sym e))
  skip-All P (r ∷ rs) q q' run = elim (List-cases (contents q)) [
    | inl none_left ↦ let at = top_none q none_left in absurd (ground (arith, at, run))
    | inr (c, cs, e) ↦
        let (t, q₁, at, popped, perm, _) = top_some q c cs e in
        elim (Bytes_discrete r t.word) [
          | yes same ↦
              let (to, back) = skip-All P rs q₁ q' (rw (at, if_pos _ same, popped) at run) in
              (
                λ all. to (All-Permᴰ P perm all).1,
                λ seen all.
                    All-Permᴰ P (Permᴰ.symm perm)
                      (seen t (inl (sym same)), back (λ d o. seen d (inr o)) all),
              )
          | no other ↦
              let (to, back) = skip-All P rs q q' (rw (at, if_neg _ other) at run) in
              (to, λ seen. back (λ d o. seen d (inr o)))
        ]
  ]
