-- ===== src/Dictionary/Query.antt =====
-- `Dictionary::doQuery` of src/recommander/Dictionary.cc as a whole.
use simple_search_enginer.Prelude.{
  ◌≤◌, ◌≡◌, refl, sym, ap, ◌∙◌, subst, ◌⊎◌, inl, inr, Option, none, some, List, [], ◌∷◌, ◌++◌, map,
  Bytes, arith, length, min, All, All-map, if_pos, Option-cases, ◌>>=◌,
}
use mathlib.Core.List.{append-nil, Permᴰ}
use mathlib.Core.List.Permᴰ
use simple_search_enginer.Dictionary.{
  Candidate, PriorityQueue, Dictionary, set_at, is_empty, skip, collect, split_sought, do_query,
}
use simple_search_enginer.Dictionary.Popping.{Occurs, List-cases, All-Permᴰ}
use simple_search_enginer.Dictionary.Best.{Ranked, IsServed, collect-Picked, every}
use simple_search_enginer.Dictionary.Filling.{word_candidates, push_words-contents}
use simple_search_enginer.Dictionary.Distinct.{
  Different, Different-Permᴰ, length-Permᴰ, collect_total,
}

-- The candidate is one of these.
abbrev pub IsOneOf : List Candidate → Candidate → Type 0
IsOneOf [] c = ⊥
IsOneOf (d ∷ ds) c = (c ≡ d) ⊎ IsOneOf ds c

IsOneOf-self : (cs : List Candidate) → All (IsOneOf cs) cs
IsOneOf-self [] = tt
IsOneOf-self (c ∷ cs) =
    (inl refl, All-map (IsOneOf cs) (IsOneOf (c ∷ cs)) cs (λ d h. inr h) (IsOneOf-self cs))

module _ (queues : PriorityQueue) (next : Bytes → Option (Bytes × Bytes)) where
  open queues use {Queue, contents, empty, top, pop, empty_lem, top_none, top_some}

  -- The queue once it is filled, and what `doQuery` does from there.
  filled :
      (d : Dictionary) (sought : Bytes) (ws : List Bytes) (cs : List Candidate)
      → split_sought next sought ≡ some ws
      → word_candidates d.dict sought d.index ws ≡ some cs
      → (d' : Dictionary) × (q : Queue) × (do_query queues next d sought
          ≡ (collect queues 5 [] q >>= λ ret. some (d', ret)))
        × (d'.dict ≡ d.dict)
        × ((k : Bytes) → set_at k d'.index ≡ set_at k d.index)
        × Permᴰ (contents q) cs
  unfolding do_query
  filled d sought ws cs split known =
      let (index', q, ran, same, perm) =
        push_words-contents queues d.dict sought ws d.index empty cs known in
      (
        record d { index = index' },
        q,
        rw (split, ran) refl,
        refl,
        same,
        subst (λ u. Permᴰ (contents q) u) (ap (λ u. cs ++ u) empty_lem ∙ append-nil cs) perm,
      )

  -- Where the word splits and all its candidates exist, whatever `doQuery` returns are the words of
  -- at most five of the candidates, each not less than the later ones; a candidate whose word is
  -- left out is not greater than any of them, and is left out only if there are five.
  pub do_query-best :
      (d d' : Dictionary) (sought : Bytes) (ws out : List Bytes) (cs : List Candidate)
      → split_sought next sought ≡ some ws
      → word_candidates d.dict sought d.index ws ≡ some cs
      → do_query queues next d sought ≡ some (d', out)
      → (picks : List Candidate) × (out ≡ map (λ (c : Candidate). c.word) picks)
        × (length picks ≤ 5)
        × Ranked picks
        × All (IsOneOf cs) picks
        × All (IsServed 5 picks out) cs
  do_query-best d d' sought ws out cs split known run =
      let (d'', q, runs, _, _, perm) = filled d sought ws cs split known in
      elim (Option-cases (collect queues 5 [] q)) [
        | inl stuck ↦ absurd (ground (arith, runs, run, stuck))
        | inr (ret, collected) ↦
            let e : ret ≡ out = ground (arith, runs, run, collected) in
            let p = collect-Picked queues 5 [] q out (collected ∙ ap some e) in
            (
              p.picks,
              p.out_eq,
              p.few,
              p.ranked,
              p.origin (IsOneOf cs) (All-Permᴰ (IsOneOf cs) (Permᴰ.symm perm) (IsOneOf-self cs)),
              All-Permᴰ (IsServed 5 p.picks out) perm p.served,
            )
      ]

  -- Where the word splits, all its candidates exist and no two have one word, `doQuery` returns
  -- five words, or as many as there are candidates if they are fewer, and the dictionary keeps
  -- its words and its sets.
  pub do_query_total :
      (d : Dictionary) (sought : Bytes) (ws : List Bytes) (cs : List Candidate)
      → split_sought next sought ≡ some ws
      → word_candidates d.dict sought d.index ws ≡ some cs
      → Different cs
      → (d' : Dictionary) × (out : List Bytes) × (do_query queues next d sought ≡ some (d', out))
        × (length out ≡ min 5 (length cs))
        × (d'.dict ≡ d.dict)
        × ((k : Bytes) → set_at k d'.index ≡ set_at k d.index)
  do_query_total d sought ws cs split known apart =
      let (d', q, runs, dict, same, perm) = filled d sought ws cs split known in
      let (out, ran, len) =
        collect_total queues 5 [] q (Different-Permᴰ (Permᴰ.symm perm) apart)
          (every (λ (c : Candidate). ¬ Occurs c.word []) (contents q) (λ c o. o)) in
      (d', out, runs ∙ rw ran refl, omega (arith, len, length-Permᴰ perm), dict, same)

  empty_of-Permᴰ :
      (t : Candidate) (cs : List Candidate) (c : Candidate) → Permᴰ (c ∷ []) (t ∷ cs) → cs ≡ []
  empty_of-Permᴰ t [] c perm = refl
  empty_of-Permᴰ t (d ∷ ds) c perm = absurd (omega (arith, length-Permᴰ perm))

  one_of-Permᴰ :
      (t : Candidate) (cs : List Candidate) (c d : Candidate)
      → Permᴰ (c ∷ d ∷ []) (t ∷ cs)
      → (e : Candidate) × (cs ≡ e ∷ [])
  one_of-Permᴰ t [] c d perm = absurd (omega (arith, length-Permᴰ perm))
  one_of-Permᴰ t (e ∷ []) c d perm = (e, refl)
  one_of-Permᴰ t (e ∷ f ∷ ds) c d perm = absurd (omega (arith, length-Permᴰ perm))

  collect-twice :
      (q : Queue) (c d : Candidate)
      → Permᴰ (contents q) (c ∷ d ∷ [])
      → c.word ≡ d.word
      → collect queues 5 [] q ≡ none
  unfolding collect skip is_empty
  collect-twice q c d perm same =
      let words =
        All-Permᴰ (λ (e : Candidate). e.word ≡ c.word) (Permᴰ.symm perm) (refl, (sym same, tt)) in
      elim (List-cases (contents q)) [
        | inl gone ↦ absurd (omega (arith, length-Permᴰ perm, ap length gone))
        | inr (a, rest, e) ↦
            let (t, q₁, at, popped, out₁, _) = top_some q a rest e in
            let words₁ = All-Permᴰ (λ (e : Candidate). e.word ≡ c.word) out₁ words in
            let (u, one) = one_of-Permᴰ t (contents q₁) c d (Permᴰ.trans (Permᴰ.symm perm) out₁) in
            let (t₂, q₂, at₂, popped₂, out₂, _) = top_some q₁ u [] one in
            let words₂ = All-Permᴰ (λ (e : Candidate). e.word ≡ c.word) out₂ words₁.1 in
            let gone =
              empty_of-Permᴰ t₂ (contents q₂) u
                (subst (λ l. Permᴰ l (t₂ ∷ contents q₂)) one out₂) in
            let equal : t.word ≡ t₂.word = words₁.0 ∙ sym words₂.0 in
            rw (e, at, popped, one, at₂, if_pos _ equal, popped₂, top_none q₂ gone) refl
      ]

  -- Where the candidates are two with one word, `doQuery` has no result: it takes the top of an
  -- empty queue.
  pub do_query-twice :
      (d : Dictionary) (sought : Bytes) (ws : List Bytes) (a b : Candidate)
      → split_sought next sought ≡ some ws
      → word_candidates d.dict sought d.index ws ≡ some (a ∷ b ∷ [])
      → a.word ≡ b.word
      → do_query queues next d sought ≡ none
  do_query-twice d sought ws a b split known same =
      let (d', q, runs, _, _, perm) = filled d sought ws (a ∷ b ∷ []) split known in
      runs ∙ rw (collect-twice q a b perm same) refl
