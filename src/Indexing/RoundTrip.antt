-- ===== src/Indexing/RoundTrip.antt =====
-- The inverted index that `store` of pageDump/PagePreProcessor.cc writes, read by
-- `initInvertIndex` of src/WebPageSearcher.cc.
use mathlib.Core.List.{append_assoc, append-nil}
use simple_search_enginer.Prelude.{
  ◌≡◌, ◌≢◌, refl, sym, ap, ◌∙◌, Option, some, List, [], ◌∷◌, ◌++◌, arith, Bytes, getlines,
  getlines-line, Without,
}
use simple_search_enginer.Producer.{decimal}
use simple_search_enginer.Producer.Decimal.{decimal-Without}
use simple_search_enginer.Producer.DictFile.{Without-append}
use simple_search_enginer.Searcher.{Doubles, PageText, Posting, Table}
use simple_search_enginer.Searcher.Files.{until_empty, index_lines, init_invert_index}
use simple_search_enginer.Indexing.{store_postings, store_table}
use simple_search_enginer.Indexing.Fields.{IsField}
use simple_search_enginer.Indexing.PostingLines.{filled, Absent, Climbs, line_bytes}

module _ (doubles : Doubles) (parse_page : Bytes → Option PageText) where
  open doubles use {Real}

  -- The rest of an inverted index: words without blanks, commas and newlines that differ from each
  -- other and from those before, each with postings of ascending numbers, at least one.
  abbrev pub IsTable : (Real → Bytes) → Table doubles parse_page → Table doubles parse_page → Type 0
  IsTable print before [] = Unit
  IsTable print before ((key, ps) ∷ table) =
      IsField key
      × Without 10 key
      × (ps ≢ [])
      × Climbs doubles parse_page print [] ps
      × Absent doubles parse_page key before
      × IsTable print (before ++ ((key, ps) ∷ [])) table

  store_postings-Without :
      (print : Real → Bytes) (ps qs : List (Posting doubles parse_page))
      → Climbs doubles parse_page print qs ps
      → Without 10 (store_postings doubles parse_page print ps)
  unfolding store_postings
  store_postings-Without print [] qs h = tt
  store_postings-Without print (p ∷ ps) qs h =
      let rest = store_postings doubles parse_page print ps in
      Without-append 10 (decimal p.id) (32 ∷ print p.w ++ (32 ∷ decimal p.at ++ (32 ∷ 44 ∷ rest)))
        (decimal-Without 10 p.id (omega arith))
        (
          ground arith,
          Without-append 10 (print p.w) (32 ∷ decimal p.at ++ (32 ∷ 44 ∷ rest)) h.0.no_newline (
            ground arith,
            Without-append 10 (decimal p.at) (32 ∷ 44 ∷ rest)
                (decimal-Without 10 p.at (omega arith))
                (ground arith, (ground arith, store_postings-Without print ps _ h.2)),
          ),
        )

  -- The first line, which is not empty.
  lines_eq :
      (key line rest : Bytes)
      → Without 10 key
      → Without 10 line
      → until_empty (getlines (key ++ (32 ∷ line ++ (10 ∷ rest))))
        ≡ (key ++ (32 ∷ line)) ∷ until_empty (getlines rest)
  unfolding until_empty
  lines_eq key line rest h k =
      ap (λ t. until_empty (getlines t)) (sym (append_assoc key (32 ∷ line) (10 ∷ rest)))
      ∙ ap until_empty (
          getlines-line (key ++ (32 ∷ line)) rest
            (Without-append 10 key (32 ∷ line) h (ground arith, k)))
      ∙ not_empty key (getlines rest)
    where
      not_empty :
          (k : Bytes) (ls : List Bytes)
          → until_empty ((k ++ (32 ∷ line)) ∷ ls) ≡ (k ++ (32 ∷ line)) ∷ until_empty ls
      not_empty [] ls = refl
      not_empty (c ∷ k) ls = refl

  filled_some :
      (table : Table doubles parse_page) (key : Bytes) (ps : List (Posting doubles parse_page))
      → ps ≢ []
      → filled doubles parse_page table key ps ≡ table ++ ((key, ps) ∷ [])
  filled_some table key [] h = absurd (h refl)
  filled_some table key (p ∷ ps) h = refl

  index_lines-store_table :
      (print : Real → Bytes) (table before : Table doubles parse_page)
      → IsTable print before table
      → index_lines doubles parse_page
          (until_empty (getlines (store_table doubles parse_page print table)))
          before
        ≡ some (before ++ table)
  unfolding index_lines store_table
  index_lines-store_table print [] before h =
      unfold getlines in (unfold until_empty in (ap some (sym (append-nil before))))
  index_lines-store_table print ((key, ps) ∷ table) before h =
      let (s, read, seen) = line_bytes doubles parse_page print ps key before h.0 h.4 h.3 in
      let lines =
        lines_eq key (store_postings doubles parse_page print ps)
          (store_table doubles parse_page print table) h.1
          (store_postings-Without print ps [] h.3) in
      let more = index_lines-store_table print table (before ++ ((key, ps) ∷ [])) h.5 in
      rw (lines, read)
        (ap
            (index_lines doubles parse_page
              (until_empty (getlines (store_table doubles parse_page print table))))
            (seen ∙ filled_some before key ps h.2)
          ∙ more)
      ∙ ap some (append_assoc before ((key, ps) ∷ []) table)

  -- `initInvertIndex` reads from the file what `store` wrote, if the words differ and hold no
  -- blanks, commas and newlines, each has at least one posting, the numbers of its pages ascend
  -- and fit an `int`, as the positions do, and each weight is read as it was written.
  pub init_invert_index-store_table :
      (print : Real → Bytes) (table : Table doubles parse_page)
      → IsTable print [] table
      → init_invert_index doubles parse_page (store_table doubles parse_page print table)
        ≡ some table
  unfolding init_invert_index
  init_invert_index-store_table print table h = index_lines-store_table print table [] h
