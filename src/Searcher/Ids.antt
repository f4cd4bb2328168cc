-- ===== src/Searcher/Ids.antt =====
-- The pages that `multiQuery` of src/WebPageSearcher.cc finds.
use simple_search_enginer.Prelude.{
  ◌≡◌, refl, ap, ◌∙◌, Bool, false, ◌&&◌, ◌||◌, Option, some, List, [], ◌∷◌, ◌++◌, Bytes,
  Bytes_discrete, ℤ, ℤ_discrete, arith, at_key-touch_key,
}
use simple_search_enginer.Searcher.{
  Doubles, PageText, Posting, Table, has_id, ids, found_ids, postings, touch, multi_loop,
  multi_query,
}

has_id-append : (i : ℤ) (xs ys : List ℤ) → has_id i (xs ++ ys) ≡ has_id i xs || has_id i ys
unfolding has_id
has_id-append i [] ys = refl
has_id-append i (x ∷ xs) ys = ground (arith, has_id-append i xs ys)

module _ (doubles : Doubles) (parse_page : Bytes → Option PageText) where
  abbrev P : Type 0
  P = Posting doubles parse_page

  pub postings-touch :
      (j k : Bytes) (table : Table doubles parse_page)
      → postings doubles parse_page j (touch doubles parse_page k table)
        ≡ postings doubles parse_page j table
  unfolding postings touch
  postings-touch j k table = at_key-touch_key Bytes_discrete [] j k table

  -- The page has one of these keys.
  abbrev pub has_key : ℤ → Table doubles parse_page → List Bytes → Bool
  has_key i table [] = false
  has_key i table (k ∷ ks) =
      has_id i (ids doubles parse_page (postings doubles parse_page k table)) || has_key i table ks

  has_key-touch :
      (i : ℤ) (k : Bytes) (table : Table doubles parse_page) (ks : List Bytes)
      → has_key i (touch doubles parse_page k table) ks ≡ has_key i table ks
  has_key-touch i k table [] = refl
  has_key-touch i k table (j ∷ ks) = rw (postings-touch j k table, has_key-touch i k table ks) refl

  has_id-found_ids :
      (i : ℤ) (first : List ℤ) (ps : List P)
      → has_id i (found_ids doubles parse_page first ps)
        ≡ has_id i first && has_id i (ids doubles parse_page ps)
  unfolding has_id found_ids ids
  has_id-found_ids i first [] = ground arith
  has_id-found_ids i first (p ∷ ps) = elim (ℤ_discrete p.id i) [
    | yes e ↦ ground (arith, has_id-found_ids i first ps, ap (λ u. has_id u first) e)
    | no n ↦ ground (arith, has_id-found_ids i first ps)
  ]

  has_id-multi_loop :
      (i : ℤ) (first : List ℤ) (table : Table doubles parse_page) (ks : List Bytes) (ret : List ℤ)
      → has_id i (multi_loop doubles parse_page first table ks ret).1
        ≡ has_id i ret || (has_id i first && has_key i table ks)
  unfolding multi_loop
  has_id-multi_loop i first table [] ret = ground arith
  has_id-multi_loop i first table (k ∷ ks) ret =
      let ps = postings doubles parse_page k table in
      ground (
        arith,
        has_id-multi_loop i first (touch doubles parse_page k table) ks
            (ret ++ found_ids doubles parse_page first ps),
        has_id-append i ret (found_ids doubles parse_page first ps),
        has_id-found_ids i first ps,
        has_key-touch i k table ks,
      )

  postings-multi_loop :
      (j : Bytes) (first : List ℤ) (table : Table doubles parse_page) (ks : List Bytes)
      (ret : List ℤ)
      → postings doubles parse_page j (multi_loop doubles parse_page first table ks ret).0
        ≡ postings doubles parse_page j table
  unfolding multi_loop
  postings-multi_loop j first table [] ret = refl
  postings-multi_loop j first table (k ∷ ks) ret =
      postings-multi_loop j first (touch doubles parse_page k table) ks _ ∙ postings-touch j k table

  -- The search for several keys finds the pages that have the first key and at least one of the
  -- others, which for two keys are the pages that have both; and it changes no postings.
  pub multi_query-has_key :
      (table : Table doubles parse_page) (k : Bytes) (ks : List Bytes)
      → (table' : Table doubles parse_page) × (found : List ℤ) × (multi_query doubles parse_page
            table
            (k ∷ ks)
          ≡ some (table', found))
        × ((j : Bytes) → postings doubles parse_page j table' ≡ postings doubles parse_page j table)
        × ((i : ℤ)
            → has_id i found
              ≡ has_id i (ids doubles parse_page (postings doubles parse_page k table))
                && has_key i table ks)
  unfolding multi_query
  multi_query-has_key table k ks =
      let first = ids doubles parse_page (postings doubles parse_page k table) in
      let out = multi_loop doubles parse_page first (touch doubles parse_page k table) ks [] in
      (
        out.0,
        out.1,
        refl,
        λ j.
            postings-multi_loop j first (touch doubles parse_page k table) ks []
            ∙ postings-touch j k table,
        λ i.
            has_id-multi_loop i first (touch doubles parse_page k table) ks []
            ∙ rw (has_key-touch i k table ks) (unfold has_id in refl),
      )
