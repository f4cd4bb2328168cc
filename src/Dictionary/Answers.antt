-- ===== src/Dictionary/Answers.antt =====
-- `Dictionary` of src/recommander/Dictionary.cc as the recommender uses it: a query changes the
-- index, but no later answer.
use simple_search_enginer.Prelude.{
  ◌≡◌, refl, sym, ap, ◌∙◌, inl, inr, Option, some, List, [], ◌∷◌, Bytes, arith, Option-cases, ◌>>=◌,
  ℤ,
}
use simple_search_enginer.Recommender.{Candidates}
use simple_search_enginer.Dictionary.{
  PriorityQueue, Dictionary, set_at, touch, push_set, push_words, collect, split_sought, do_query,
}
use simple_search_enginer.Dictionary.Filling.{set_at-touch}

module _ (queues : PriorityQueue) (next : Bytes → Option (Bytes × Bytes)) where
  open queues use {Queue, empty}

  -- The words that a query returns.
  unfoldable pub answer : Dictionary → Bytes → Option (List Bytes)
  answer d sought = do_query queues next d sought >>= λ r. some r.1

  queue_of : Option (List (Bytes × List ℤ) × Queue) → Option Queue
  queue_of o = o >>= λ r. some r.1

  push_words-queue :
      (dict : List (Bytes × ℤ)) (sought : Bytes) (ws : List Bytes) (i j : List (Bytes × List ℤ))
      (q : Queue)
      → ((k : Bytes) → set_at k i ≡ set_at k j)
      → queue_of (push_words queues dict sought ws i q)
        ≡ queue_of (push_words queues dict sought ws j q)
  unfolding push_words queue_of
  push_words-queue dict sought [] i j q same = refl
  push_words-queue dict sought (w ∷ ws) i j q same =
      elim (Option-cases (push_set queues dict sought (set_at w j) q)) [
        | inl stuck ↦ rw (same w, stuck) refl
        | inr (q', ran) ↦
            rw (same w, ran)
              (push_words-queue dict sought ws (touch w i) (touch w j) q'
                (λ k. set_at-touch k w i ∙ same k ∙ sym (set_at-touch k w j)))
      ]

  push_words-index :
      (dict : List (Bytes × ℤ)) (sought : Bytes) (ws : List Bytes) (i i' : List (Bytes × List ℤ))
      (q q' : Queue)
      → push_words queues dict sought ws i q ≡ some (i', q')
      → (k : Bytes) → set_at k i' ≡ set_at k i
  unfolding push_words
  push_words-index dict sought [] i i' q q' run k = ground (arith, run)
  push_words-index dict sought (w ∷ ws) i i' q q' run k =
      elim (Option-cases (push_set queues dict sought (set_at w i) q)) [
        | inl stuck ↦ absurd (ground (arith, run, stuck))
        | inr (q₁, ran) ↦
            push_words-index dict sought ws (touch w i) i' q₁ q' (rw ran at run) k
            ∙ set_at-touch k w i
      ]

  answer-queue :
      (d : Dictionary) (sought : Bytes)
      → answer d sought ≡ (
          split_sought next sought >>= λ ws.
          queue_of (push_words queues d.dict sought ws d.index empty) >>= λ q.
          collect queues 5 [] q)
  unfolding answer do_query queue_of
  answer-queue d sought = elim (Option-cases (split_sought next sought)) [
    | inl stuck ↦ ground (arith, stuck)
    | inr (ws, split) ↦ elim (Option-cases (push_words queues d.dict sought ws d.index empty)) [
      | inl stuck ↦ ground (arith, split, stuck)
      | inr (r, ran) ↦ elim (Option-cases (collect queues 5 [] r.1)) [
        | inl stuck ↦ ground (arith, split, ran, stuck)
        | inr (ret, got) ↦ ground (arith, split, ran, got)
      ]
    ]
  ]

  do_query-index :
      (d d' : Dictionary) (sought : Bytes) (v : List Bytes)
      → do_query queues next d sought ≡ some (d', v)
      → (d'.dict ≡ d.dict) × ((k : Bytes) → set_at k d'.index ≡ set_at k d.index)
  unfolding do_query
  do_query-index d d' sought v run = elim (Option-cases (split_sought next sought)) [
    | inl stuck ↦ absurd (ground (arith, run, stuck))
    | inr (ws, split) ↦ elim (Option-cases (push_words queues d.dict sought ws d.index empty)) [
      | inl stuck ↦ absurd (ground (arith, run, split, stuck))
      | inr (r, ran) ↦ elim (Option-cases (collect queues 5 [] r.1)) [
        | inl stuck ↦ absurd (ground (arith, run, split, ran, stuck))
        | inr (ret, got) ↦
            let e : record d { index = r.0 } ≡ d' = ground (arith, run, split, ran, got) in
            let moved = push_words-index d.dict sought ws d.index r.0 empty r.1 ran in
            (
              sym (ap (λ (u : Dictionary). u.dict) e),
              λ k. sym (ap (λ (u : Dictionary). set_at k u.index) e) ∙ moved k,
            )
      ]
    ]
  ]

  same_answer :
      (d d' : Dictionary) (k : Bytes)
      → d'.dict ≡ d.dict
      → ((w : Bytes) → set_at w d'.index ≡ set_at w d.index)
      → answer d' k ≡ answer d k
  same_answer d d' k dict same = elim (Option-cases (split_sought next k)) [
    | inl stuck ↦ ground (arith, answer-queue d k, answer-queue d' k, stuck)
    | inr (ws, split) ↦ ground (
      arith,
      answer-queue d k,
      answer-queue d' k,
      split,
      dict,
      push_words-queue d.dict k ws d'.index d.index empty same,
    )
  ]

  -- A query that returns leaves a dictionary with the same answers to all queries.
  pub do_query-same_answers :
      (d d' : Dictionary) (sought : Bytes) (v : List Bytes)
      → do_query queues next d sought ≡ some (d', v)
      → (k : Bytes) → answer d' k ≡ answer d k
  do_query-same_answers d d' sought v run k =
      let (dict, same) = do_query-index d d' sought v run in same_answer d d' k dict same

  answered :
      (d : Dictionary) (k : Bytes) (v : List Bytes)
      → answer d k ≡ some v
      → (d' : Dictionary) × (do_query queues next d k ≡ some (d', v))
        × ((q : Bytes) → answer d' q ≡ answer d q)
  unfolding answer
  answered d k v known = elim (Option-cases (do_query queues next d k)) [
    | inl stuck ↦ absurd (ground (arith, known, stuck))
    | inr ((d', u), ran) ↦
        let run : do_query queues next d k ≡ some (d', v) = ground (arith, known, ran) in
        (d', run, do_query-same_answers d d' k v run)
  ]

  -- The dictionary of the recommender.
  unfoldable pub dictionary_candidates : Candidates
  unfolding answered
  dictionary_candidates = record {
    State = Dictionary;
    query = do_query queues next;
    answer = answer;
    query_lem = answered;
  }
