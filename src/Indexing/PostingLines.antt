-- ===== src/Indexing/PostingLines.antt =====
-- One line of the inverted index, as `store` of pageDump/PagePreProcessor.cc writes it and
-- `initInvertIndex` of src/WebPageSearcher.cc reads it.
use mathlib.Core.List.{append_assoc, append-nil}
use simple_search_enginer.Prelude.{
  ◌≡◌, ◌≢◌, refl, sym, ap, ◌∙◌, true, false, Option, some, List, [], ◌∷◌, ◌++◌, arith, All, Bytes,
  Bytes_discrete, ℤ, ltz, assign, at_key, set_insert,
}
use simple_search_enginer.Searcher.{Doubles, PageText, Posting, Table, posting_less, postings}
use simple_search_enginer.Searcher.Files.{LineState, line_start, blank, index_bytes}
use simple_search_enginer.Indexing.{store_postings}
use simple_search_enginer.Indexing.Fields.{
  IsField, IsWritten, keyed, inserted, field_blank, posting_bytes,
}

module _ (doubles : Doubles) (parse_page : Bytes → Option PageText) where
  open doubles use {Real}

  ltz_asym : (a b : ℤ) → ltz a b ≡ true → ltz b a ≡ false
  unfolding ltz
  ltz_asym a b h = ground arith

  -- A posting with a larger number goes behind the others.
  set_insert-last :
      (p : Posting doubles parse_page) (qs : List (Posting doubles parse_page))
      → All (λ (q : Posting doubles parse_page). ltz q.id p.id ≡ true) qs
      → set_insert (posting_less doubles parse_page) p qs ≡ qs ++ (p ∷ [])
  unfolding set_insert posting_less
  set_insert-last p [] h = refl
  set_insert-last p (q ∷ qs) h =
      ground (arith, h.0, ltz_asym q.id p.id h.0, set_insert-last p qs h.1)

  -- The table while a line is read: the new key stands last, once it has a posting.
  abbrev pub filled :
      Table doubles parse_page
      → Bytes
      → List (Posting doubles parse_page)
      → Table doubles parse_page
  filled table key [] = table
  filled table key (p ∷ ps) = table ++ ((key, p ∷ ps) ∷ [])

  abbrev pub Absent : Bytes → Table doubles parse_page → Type 0
  Absent key = All (λ (e : Bytes × List (Posting doubles parse_page)). e.0 ≢ key)

  postings-filled :
      (table : Table doubles parse_page) (key : Bytes) (qs : List (Posting doubles parse_page))
      → Absent key table
      → postings doubles parse_page key (filled table key qs) ≡ qs
  unfolding postings at_key
  postings-filled [] key [] h = refl
  postings-filled [] key (q ∷ qs) h = ground arith
  postings-filled (e ∷ table) key [] h = ground (arith, h.0, postings-filled table key [] h.1)
  postings-filled (e ∷ table) key (q ∷ qs) h =
      ground (arith, h.0, postings-filled table key (q ∷ qs) h.1)

  assign-filled :
      (table : Table doubles parse_page) (key : Bytes) (qs ps : List (Posting doubles parse_page))
      → Absent key table
      → assign Bytes_discrete key ps (filled table key qs) ≡ table ++ ((key, ps) ∷ [])
  unfolding assign
  assign-filled [] key [] ps h = refl
  assign-filled [] key (q ∷ qs) ps h = ground arith
  assign-filled (e ∷ table) key [] ps h = ground (arith, h.0, assign-filled table key [] ps h.1)
  assign-filled (e ∷ table) key (q ∷ qs) ps h =
      ground (arith, h.0, assign-filled table key (q ∷ qs) ps h.1)

  append_nonempty :
      (table : Table doubles parse_page) (key : Bytes) (qs : List (Posting doubles parse_page))
      (p : Posting doubles parse_page)
      → table ++ ((key, qs ++ (p ∷ [])) ∷ []) ≡ filled table key (qs ++ (p ∷ []))
  append_nonempty table key [] p = refl
  append_nonempty table key (q ∷ qs) p = refl

  inserted-filled :
      (table : Table doubles parse_page) (key : Bytes) (qs : List (Posting doubles parse_page))
      (p : Posting doubles parse_page)
      → Absent key table
      → All (λ (q : Posting doubles parse_page). ltz q.id p.id ≡ true) qs
      → inserted doubles parse_page key p (filled table key qs) ≡ filled table key (qs ++ (p ∷ []))
  inserted-filled table key qs p absent below =
      ap
        (λ us.
          assign Bytes_discrete key (set_insert (posting_less doubles parse_page) p us)
            (filled table key qs))
        (postings-filled table key qs absent)
      ∙ assign-filled table key qs (set_insert (posting_less doubles parse_page) p qs) absent
      ∙ ap (λ us. table ++ ((key, us) ∷ [])) (set_insert-last p qs below)
      ∙ append_nonempty table key qs p

  -- The rest of a line: written postings with ascending numbers.
  abbrev pub Climbs :
      (Real → Bytes)
      → List (Posting doubles parse_page)
      → List (Posting doubles parse_page)
      → Type 0
  Climbs print qs [] = Unit
  Climbs print qs (p ∷ ps) =
      IsWritten doubles parse_page print p
      × All (λ (q : Posting doubles parse_page). ltz q.id p.id ≡ true) qs
      × Climbs print (qs ++ (p ∷ [])) ps

  postings_bytes :
      (print : Real → Bytes) (ps qs : List (Posting doubles parse_page)) (key : Bytes) (id : ℤ)
      (w : Real) (at : ℤ) (table : Table doubles parse_page)
      → Absent key table
      → Climbs print qs ps
      → (s : LineState doubles parse_page) × (index_bytes doubles parse_page
            (store_postings doubles parse_page print ps)
            (keyed doubles parse_page key id w at (filled table key qs))
          ≡ some s)
        × (s.table ≡ filled table key (qs ++ ps))
  unfolding store_postings index_bytes
  postings_bytes print [] qs key id w at table absent h =
      (_, refl, ap (filled table key) (sym (append-nil qs)))
  postings_bytes print (p ∷ ps) qs key id w at table absent h =
      let (s, read, seen) =
        postings_bytes print ps (qs ++ (p ∷ [])) key p.id p.w p.at table absent h.2 in
      (
        s,
        posting_bytes doubles parse_page print p (store_postings doubles parse_page print ps) key id
              w at (filled table key qs) h.0
            ∙ ap
                (λ u.
                  index_bytes doubles parse_page (store_postings doubles parse_page print ps)
                    (keyed doubles parse_page key p.id p.w p.at u))
                (inserted-filled table key qs p absent h.1)
            ∙ read,
        seen ∙ ap (filled table key) (append_assoc qs (p ∷ []) ps),
      )

  -- A whole line.
  pub line_bytes :
      (print : Real → Bytes) (ps : List (Posting doubles parse_page)) (key : Bytes)
      (table : Table doubles parse_page)
      → IsField key
      → Absent key table
      → Climbs print [] ps
      → (s : LineState doubles parse_page) × (index_bytes doubles parse_page
            (key ++ (32 ∷ store_postings doubles parse_page print ps))
            (line_start doubles parse_page table)
          ≡ some s)
        × (s.table ≡ filled table key ps)
  unfolding blank
  line_bytes print ps key table field absent h =
      let start = line_start doubles parse_page table in
      let (s, read, seen) =
        postings_bytes print ps [] key start.id start.w start.at table absent h in
      (
        s,
        field_blank doubles parse_page key (store_postings doubles parse_page print ps) start _
              field refl
            ∙ read,
        seen,
      )
