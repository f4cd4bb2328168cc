-- ===== src/Searcher/Keys.antt =====
-- The keys of a query in `WebPageSearcher::doQuery` of src/WebPageSearcher.cc.
use simple_search_enginer.Prelude.{
  ℕ, ◌≡◌, ◌≢◌, refl, sym, ap, ◌∙◌, inl, inr, Bool-cases, true, false, List, [], ◌∷◌, ◌++◌, Bytes,
  arith, All, All-append, Without, ◌==◌,
}
use mathlib.Core.List.{append_assoc, append-nil}
use simple_search_enginer.Searcher.Answer.{key_loop, split_keys}

-- The words with a blank between each two.
abbrev pub joined : List Bytes → Bytes
joined [] = []
joined (w ∷ []) = w
joined (w ∷ v ∷ ws) = w ++ (32 ∷ joined (v ∷ ws))

-- The keys found before stay in front.
key_loop-keys :
    (s tmp : Bytes) (keys : List Bytes) → key_loop tmp keys s ≡ keys ++ key_loop tmp [] s
unfolding key_loop
key_loop-keys [] tmp keys = refl
key_loop-keys (c ∷ s) tmp keys = elim (Bool-cases (c == 32)) [
  | inl e ↦ rw e (
      key_loop-keys s [] (keys ++ (tmp ∷ []))
      ∙ append_assoc keys (tmp ∷ []) (key_loop [] [] s)
      ∙ ap (λ u. keys ++ u) (sym (key_loop-keys s [] (tmp ∷ []))))
  | inr e ↦ rw e (key_loop-keys s (tmp ++ (c ∷ [])) keys)
]

key_loop_blank : (s tmp : Bytes) (c : ℕ) → c ≡ 32 → key_loop tmp [] (c ∷ s) ≡ tmp ∷ key_loop [] [] s
unfolding key_loop
key_loop_blank s tmp c h =
    let e : (c == 32) ≡ true = ground arith in rw e (key_loop-keys s [] (tmp ∷ []))

key_loop_other :
    (s tmp : Bytes) (c : ℕ) → c ≢ 32 → key_loop tmp [] (c ∷ s) ≡ key_loop (tmp ++ (c ∷ [])) [] s
unfolding key_loop
key_loop_other s tmp c h = let e : (c == 32) ≡ false = ground arith in rw e refl

-- There is a first key, and no key holds a blank.
key_loop-Without :
    (s tmp : Bytes)
    → Without 32 tmp
    → (w : Bytes) × (ws : List Bytes) × (key_loop tmp [] s ≡ w ∷ ws)
      × All (Without 32) (w ∷ ws)
      × (joined (w ∷ ws) ≡ tmp ++ s)
key_loop-Without [] tmp h = (tmp, [], unfold key_loop in refl, (h, tt), sym (append-nil tmp))
key_loop-Without (c ∷ s) tmp h = elim (Bool-cases (c == 32)) [
  | inl e ↦
      let blank : c ≡ 32 = ground arith in
      let (w, ws, ran, clean, same) = key_loop-Without s [] tt in
      (
        tmp,
        w ∷ ws,
        key_loop_blank s tmp c blank ∙ ap (λ u. tmp ∷ u) ran,
        (h, clean),
        ap (λ u. tmp ++ (32 ∷ u)) same ∙ ap (λ b. tmp ++ (b ∷ s)) (sym blank),
      )
  | inr e ↦
      let other : c ≢ 32 = ground arith in
      let (w, ws, ran, clean, same) =
        key_loop-Without s (tmp ++ (c ∷ []))
          (All-append (λ b. b ≢ 32) tmp (c ∷ []) h (other, tt)) in
      (w, ws, key_loop_other s tmp c other ∙ ran, clean, same ∙ append_assoc tmp (c ∷ []) s)
]

key_loop-word :
    (w s tmp : Bytes) → Without 32 w → key_loop tmp [] (w ++ s) ≡ key_loop (tmp ++ w) [] s
key_loop-word [] s tmp h = ap (λ u. key_loop u [] s) (sym (append-nil tmp))
key_loop-word (c ∷ w) s tmp h =
    key_loop_other (w ++ s) tmp c h.0
    ∙ key_loop-word w s (tmp ++ (c ∷ [])) h.1
    ∙ ap (λ u. key_loop u [] s) (append_assoc tmp (c ∷ []) w)

key_loop-joined :
    (w : Bytes) (ws : List Bytes)
    → All (Without 32) (w ∷ ws)
    → key_loop [] [] (joined (w ∷ ws)) ≡ w ∷ ws
key_loop-joined w [] h =
    ap (λ u. key_loop [] [] u) (sym (append-nil w))
    ∙ key_loop-word w [] [] h.0
    ∙ (unfold key_loop in refl)
key_loop-joined w (v ∷ ws) h =
    key_loop-word w (32 ∷ joined (v ∷ ws)) [] h.0
    ∙ key_loop_blank (joined (v ∷ ws)) w 32 refl
    ∙ ap (λ u. w ∷ u) (key_loop-joined v ws h.1)

-- The keys of a query are at least one, hold no blanks and give the query back when they are
-- joined by blanks; and the keys of words without blanks that are joined by blanks are the words.
pub split_keys-joined :
    (key w : Bytes) (ws : List Bytes)
    → All (Without 32) (w ∷ ws)
    → ((v : Bytes) × (vs : List Bytes) × (split_keys key ≡ v ∷ vs)
        × All (Without 32) (v ∷ vs)
        × (joined (v ∷ vs) ≡ key))
      × (split_keys (joined (w ∷ ws)) ≡ w ∷ ws)
unfolding split_keys
split_keys-joined key w ws h = (key_loop-Without key [] tt, key_loop-joined w ws h)
