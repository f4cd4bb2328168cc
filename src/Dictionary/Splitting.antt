-- ===== src/Dictionary/Splitting.antt =====
-- `Dictionary::splitSought` of src/recommander/Dictionary.cc.
use simple_search_enginer.Prelude.{
  ℕ, zero, suc, ◌≤◌, ◌≡◌, refl, sym, ap, ◌∙◌, inl, inr, Option, some, List, [], ◌∷◌, ◌++◌, Bytes,
  arith, length, length-append, Option-cases,
}
use simple_search_enginer.Utf8.Chars.{concat}
use simple_search_enginer.Dictionary.{split_loop, split_sought}

-- `utf8::next` moves forward over bytes of the text, if it returns.
abbrev pub IsAdvancing : (Bytes → Option (Bytes × Bytes)) → Type 0
IsAdvancing next = (s c rest : Bytes) → next s ≡ some (c, rest) → (c ++ rest ≡ s) × (1 ≤ length c)

module _ (next : Bytes → Option (Bytes × Bytes)) (advances : IsAdvancing next) where
  split_loop-more :
      (n m : ℕ) (s : Bytes)
      → length s ≤ n
      → length s ≤ m
      → split_loop next n s ≡ split_loop next m s
  unfolding split_loop
  split_loop-more n m [] h k = refl
  split_loop-more zero m (c ∷ s) h k = absurd (omega arith)
  split_loop-more (suc n) zero (c ∷ s) h k = absurd (omega arith)
  split_loop-more (suc n) (suc m) (c ∷ s) h k = elim (Option-cases (next (c ∷ s))) [
    | inl stuck ↦ ground (arith, stuck)
    | inr ((ch, rest), cut) ↦
        let (whole, moved) = advances (c ∷ s) ch rest cut in
        let parts = length-append ch rest in
        let size = ap length whole in
        let same = split_loop-more n m rest (omega arith) (omega arith) in ground (arith, cut, same)
  ]

  split_loop-concat :
      (n : ℕ) (s : Bytes) (ws : List Bytes) → split_loop next n s ≡ some ws → concat ws ≡ s
  unfolding split_loop
  split_loop-concat n [] ws run = ground (arith, run)
  split_loop-concat zero (c ∷ s) ws run = cc
  split_loop-concat (suc n) (c ∷ s) ws run = elim (Option-cases (next (c ∷ s))) [
    | inl stuck ↦ absurd (ground (arith, stuck, run))
    | inr ((ch, rest), cut) ↦ elim (Option-cases (split_loop next n rest)) [
      | inl stuck ↦ absurd (ground (arith, cut, stuck, run))
      | inr (vs, ran) ↦
          let whole = (advances (c ∷ s) ch rest cut).0 in
          let ih = split_loop-concat n rest vs ran in
          let e : ch ∷ vs ≡ ws = ground (arith, cut, ran, run) in
          sym (ap concat e) ∙ ap (λ u. ch ++ u) ih ∙ whole
    ]
  ]

  -- If `utf8::next` moves forward, more fuel than the length of the word changes nothing, and the
  -- pieces joined are the word.
  pub split_sought-concat :
      (sought : Bytes)
      → ((n : ℕ) → length sought ≤ n → split_loop next n sought ≡ split_sought next sought)
        × ((ws : List Bytes) → split_sought next sought ≡ some ws → concat ws ≡ sought)
  unfolding split_sought
  split_sought-concat sought = (
    λ n h. split_loop-more n (length sought) sought h (omega arith),
    λ ws run. split_loop-concat (length sought) sought ws run,
  )
