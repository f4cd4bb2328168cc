-- ===== src/Searcher/Ranking.antt =====
-- What `simCalc` of src/WebPageSearcher.cc is to collect, said without its loops, its set and its
-- comparison.
pub mod Collecting
pub mod OneKey
pub mod ManyKeys
use simple_search_enginer.Prelude.{
  ◌≡◌, true, false, Option, some, List, [], ◌∷◌, ◌++◌, Bytes, ℤ, ℤ_discrete, pos, All, Any, stoi,
  at_key, length, replicate,
}
use simple_search_enginer.Searcher.{
  Doubles, PageText, Posting, WebPage, Offsets, Table, has_id, ids, read_between, postings,
}

module _ (doubles : Doubles) (parse_page : Bytes → Option PageText) where
  open doubles use {Real, of_nat, add, mul, div, sqrt, log2, lt}

  abbrev pub Page : Type 0
  Page = WebPage doubles parse_page

  -- `q` has the texts of the page that the page file holds where the offsets of `id` say.
  pub record IsStored (file : Bytes) (offsets : Offsets) (id : ℤ) (q : Page) : Type 0 where
    pub buf : Bytes
    pub text : PageText
    pub cut :
        read_between
          (at_key ℤ_discrete (pos 0, pos 0) id offsets).0
          (at_key ℤ_discrete (pos 0, pos 0) id offsets).1
          file
        ≡ some buf
    pub parsed : parse_page buf ≡ some text
    pub numbered : stoi text.docid ≡ some q.id
    pub titled : text.title ≡ q.title
    pub linked : text.link ≡ q.link
    pub described : text.description ≡ q.description

  -- The postings have the page once, with the weight `w`.
  pub record HasWeight (id : ℤ) (ps : List (Posting doubles parse_page)) (w : Real) : Type 0 where
    pub before : List (Posting doubles parse_page)
    pub posting : Posting doubles parse_page
    pub after : List (Posting doubles parse_page)
    pub parts : ps ≡ before ++ (posting ∷ after)
    pub same_id : posting.id ≡ id
    pub same_w : posting.w ≡ w
    pub none_before : has_id id (ids doubles parse_page before) ≡ false
    pub none_after : has_id id (ids doubles parse_page after) ≡ false

  -- The weights of the page under the keys, each of which has it once.
  abbrev pub Weights : ℤ → Table doubles parse_page → List Bytes → List Real → Type 0
  Weights id table [] [] = Unit {0}
  Weights id table [] (w ∷ ws) = ⊥
  Weights id table (k ∷ ks) [] = ⊥
  Weights id table (k ∷ ks) (w ∷ ws) =
      HasWeight id (postings doubles parse_page k table) w × Weights id table ks ws

  -- The scalar product, summed up from the left onto `sum`.
  abbrev pub dot_onto : Real → List Real → List Real → Real
  dot_onto sum [] ys = sum
  dot_onto sum (x ∷ xs) [] = sum
  dot_onto sum (x ∷ xs) (y ∷ ys) = dot_onto (add sum (mul x y)) xs ys

  abbrev pub dot : List Real → List Real → Real
  dot xs ys = dot_onto (of_nat 0) xs ys

  -- The cosine of the angle between two vectors.
  abbrev pub angle : List Real → List Real → Real
  angle xs ys = div (dot xs ys) (mul (sqrt (dot xs xs)) (sqrt (dot ys ys)))

  -- The vector of a query of `n` keys: its `n` equal weights, divided by their length.
  abbrev pub query_vector : List Bytes → List Real
  query_vector keys =
      let w = log2 (add (div (of_nat 1) (of_nat 1)) (of_nat 1)) in
      replicate (length keys) (div w (sqrt (mul (mul w w) (of_nat (length keys)))))

  -- Each page has a greater cosine than the pages after it.
  abbrev pub Falling : List Page → Type 0
  Falling [] = Unit {0}
  Falling (q ∷ qs) = All (λ (r : Page). lt r.cos q.cos ≡ true) qs × Falling qs

  -- Neither cosine is the greater one.
  abbrev pub Tied : Page → Page → Type 0
  Tied c q = (lt c.cos q.cos ≡ false) × (lt q.cos c.cos ≡ false)

  -- `pages` are some of the pages `cs`, in falling order of the cosine, and each of `cs` is tied
  -- with one of them.
  pub record IsRanking (cs pages : List Page) : Type 0 where
    pub falling : Falling pages
    pub origin : All (λ (q : Page). Any (λ (c : Page). q ≡ c) cs) pages
    pub complete : All (λ (c : Page). Any (Tied c) pages) cs
