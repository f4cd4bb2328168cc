-- ===== src/Producer/Found.antt =====
-- The whole way from recommanderDump/DictProducer.cc over the two files to a query of
-- src/recommander/Dictionary.cc.
use mathlib.Core.List.{append-nil}
use simple_search_enginer.Prelude.{
  ℕ, ◌≤◌, ◌≡◌, ap, ◌∙◌, Option, some, List, [], ◌∷◌, arith, Bytes, Bytes_discrete, ℤ, Distinct, All,
  length, get_elem?, get_elem?-All,
}
use simple_search_enginer.Dictionary.{
  Candidate, PriorityQueue, Dictionary, set_at, split_sought, do_query,
}
use simple_search_enginer.Dictionary.Files.{init_dict, init_index}
use simple_search_enginer.Dictionary.Filling.{set_candidates, word_candidates}
use simple_search_enginer.Dictionary.Query.{do_query_total}
use simple_search_enginer.Dictionary.Itself.{do_query-itself}
use simple_search_enginer.Producer.{store_dict, store_index}
use simple_search_enginer.Producer.CharIndex.{create_index, create_index-has}
use simple_search_enginer.Producer.DictFile.{IsStorable, init_dict-store_dict}
use simple_search_enginer.Producer.IndexFile.{init_index-store_index}
use simple_search_enginer.Producer.Finding.{
  IsSplit, set_at-Inside, create_index-Inside, set_candidates-made, set_candidates-Different,
}
use simple_search_enginer.Producer.Loading.{
  IsNamed, IsMade-IsIndex, create_index-IsMade, set_at-Climbs,
}

one_character :
    (dict : List (Bytes × ℤ)) (sought ch : Bytes) (index : List (Bytes × List ℤ))
    (cs : List Candidate)
    → set_candidates dict sought (set_at ch index) ≡ some cs
    → word_candidates dict sought index (ch ∷ []) ≡ some cs
unfolding word_candidates
one_character dict sought ch index cs e = rw e (ap some (append-nil cs))

-- What can be written of a dictionary, and found in it: words without blanks, newlines and digits
-- that differ from each other and split into characters, frequencies and positions that fit an
-- `int`.
pub record IsSound (next : Bytes → Option (Bytes × Bytes)) (dict : List (Bytes × ℤ)) : Type 0 where
  pub storable : All IsStorable dict
  pub few : length dict ≤ 2147483648
  pub named : All (IsNamed next) dict
  pub apart : Distinct Bytes_discrete dict
  pub splits : All (λ (e : Bytes × ℤ). IsSplit e.0) dict

module _ (queues : PriorityQueue) (next : Bytes → Option (Bytes × Bytes)) where
  -- From a sound dictionary `createIndex` makes an index; `initDict` and `initIndex` read some
  -- dictionary from the files that `store` writes of the two; and there `doQuery` on any word
  -- of the dictionary that is one character long returns that word first.
  pub produced_word-found :
      (dict : List (Bytes × ℤ)) (j : ℕ) (entry : Bytes × ℤ) (ch : Bytes)
      → IsSound next dict
      → get_elem? dict j ≡ some entry
      → split_sought next entry.0 ≡ some (ch ∷ [])
      → (index : List (Bytes × List ℤ)) × (d d' : Dictionary) × (rest : List Bytes) × (create_index
            next 0 dict []
          ≡ some index)
        × (init_dict (store_dict dict) ≡ some d.dict)
        × (init_index (store_index index) ≡ some d.index)
        × (do_query queues next d entry.0 ≡ some (d', entry.0 ∷ rest))
  produced_word-found dict j entry ch sound at cut =
      let (index, made, h) =
        create_index-IsMade next 0 dict [] (omega (arith, sound.few)) sound.named
          (record { apart = tt; lines = tt }) in
      let d : Dictionary = record { dict = dict; index = index } in
      let split =
        get_elem?-All (λ (e : Bytes × ℤ). IsSplit e.0) dict j {a = entry} sound.splits at in
      let inside =
        set_at-Inside (length dict) ch index
          (create_index-Inside next (length dict) 0 dict [] index (omega arith) made tt) in
      let (cs, known, splits, found) =
        set_candidates-made dict entry.0 (set_at ch index) split sound.splits inside in
      let (apart, _) =
        set_candidates-Different dict entry.0 0 (set_at ch index) cs sound.apart
          (set_at-Climbs ch index h.lines) known in
      let has =
        create_index-has next 0 j j dict [] index entry (ch ∷ []) ch made at (omega arith) cut
          (ground arith) in
      let known' = one_character dict entry.0 ch index cs known in
      let (d', out, ran, _, _, _) =
        do_query_total queues next d entry.0 (ch ∷ []) cs cut known' apart in
      let (rest, first) =
        do_query-itself queues next d d' entry.0 (ch ∷ []) split.0 out cs cut known' ran split.1
          splits (found j entry at has) in
      (
        index,
        d,
        d',
        rest,
        made,
        init_dict-store_dict dict sound.storable,
        init_index-store_index index (IsMade-IsIndex index h),
        ran ∙ ap (λ o. some (d', o)) first,
      )
