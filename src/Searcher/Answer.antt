-- ===== src/Searcher/Answer.antt =====
-- `doQuery` and `outRes` of src/WebPageSearcher.cc. The printer of json.hpp is a parameter.
use simple_search_enginer.Prelude.{
  ℕ, Option, some, List, [], ◌∷◌, ◌++◌, Bytes, ℤ, ℤ_discrete, to_size, ite, ◌==◌, if◌then◌else◌,
  ◌>>=◌,
}
use simple_search_enginer.Searcher.{
  Doubles, PageText, Posting, WebPage, Searcher, Table, postings, touch, single_query, multi_query,
  sim_calc,
}
use simple_search_enginer.Searcher.Snippet.{snippet}

-- `keys` after the loop over the bytes of the query, from the last word so far.
unfoldable pub key_loop : Bytes → List Bytes → Bytes → List Bytes
key_loop tmp keys [] = keys ++ (tmp ∷ [])
key_loop tmp keys (c ∷ s) =
    key_loop (if c == 32 then [] else tmp ++ (c ∷ []))
      (if c == 32 then keys ++ (tmp ∷ []) else keys) s

unfoldable pub split_keys : Bytes → List Bytes
split_keys key = key_loop [] [] key

-- The object `j` of one page.
pub record PageJson : Type 0 where
  pub id : ℤ
  pub title : Bytes
  pub link : Bytes
  pub description : List Bytes

module _ (doubles : Doubles) (parse_page : Bytes → Option PageText)
    (dump : List PageJson → Bytes) where
  -- `idx`: where the page has the key, as far as the first posting says.
  unfoldable pub position : ℤ → List (Posting doubles parse_page) → ℕ
  position id [] = 0
  position id (p ∷ ps) = let rest = position id ps in ite (ℤ_discrete p.id id) (to_size p.at) rest

  -- The loop over the keys. `oss1` is not cleared between them.
  unfoldable pub description_loop :
      WebPage doubles parse_page
      → Table doubles parse_page
      → List Bytes
      → Bytes
      → List Bytes
      → Option (Table doubles parse_page × List Bytes)
  description_loop page table [] oss1 out = some (table, out)
  description_loop page table (key ∷ keys) oss1 out = do
    text ← snippet (position page.id (postings doubles parse_page key table)) page.description
    description_loop page (touch doubles parse_page key table) keys (oss1 ++ text)
        (out ++ ((oss1 ++ text) ∷ []))

  -- The loop over the pages.
  unfoldable pub page_loop :
      List Bytes
      → Table doubles parse_page
      → List (WebPage doubles parse_page)
      → Option (Table doubles parse_page × List PageJson)
  page_loop keys table [] = some (table, [])
  page_loop keys table (page ∷ pages) = do
    described ← description_loop page table keys [] []
    rest ← page_loop keys described.0 pages
    some (
      rest.0,
      record { id = page.id; title = page.title; link = page.link; description = described.1 }
          ∷ rest.1,
    )

  unfoldable pub out_res :
      List Bytes
      → Table doubles parse_page
      → List (WebPage doubles parse_page)
      → Option (Table doubles parse_page × Bytes)
  out_res keys table pages = do done ← page_loop keys table pages; some (done.0, dump done.1)

  -- The two ways to find the ids: `keys.size() == 0` does not occur.
  unfoldable pub calc_ids :
      Table doubles parse_page → Bytes → List Bytes → Option (Table doubles parse_page × List ℤ)
  calc_ids table key [] = some (single_query doubles parse_page table key)
  calc_ids table key (k ∷ []) = some (single_query doubles parse_page table key)
  calc_ids table key (k ∷ l ∷ ks) = multi_query doubles parse_page table (k ∷ l ∷ ks)

  unfoldable pub do_query :
      Bytes → Searcher doubles parse_page → Bytes → Option (Searcher doubles parse_page × Bytes)
  do_query file s key = do
    let keys = split_keys key
    found ← calc_ids s.table key keys
    ranked ← sim_calc doubles parse_page file (record s { table = found.0 }) keys found.1
    res ← out_res keys ranked.0.table ranked.1
    some (record ranked.0 { table = res.0 }, res.1)
