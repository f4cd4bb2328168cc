-- ===== src/Indexing/OlderReader.antt =====
-- `initInvertIndex` of the older pageDump/WebPageSearcher.cc, which stops in each line at the fourth
-- field, on what `store` of pageDump/PagePreProcessor.cc writes.
use mathlib.Core.List.{append_assoc, append-nil}
use simple_search_enginer.Prelude.{
  ◌≡◌, refl, ◌∙◌, Bool, true, false, not, Option, some, List, [], ◌∷◌, ◌++◌, arith, Bytes,
  Bytes_discrete, ℤ_discrete, pos, stoi, assign, set_insert, getlines, ite, ◌==◌, if◌then◌else◌,
  ◌>>=◌,
}
use simple_search_enginer.Producer.{decimal}
use simple_search_enginer.Producer.Decimal.{stoi-decimal}
use simple_search_enginer.Searcher.{Doubles, PageText, Posting, Table, posting_less, postings}
use simple_search_enginer.Searcher.Files.{LineState, line_start, until_empty}
use simple_search_enginer.Indexing.{store_postings}
use simple_search_enginer.Indexing.Fields.{IsField, IsWritten, inserted, decimal-IsField}

module _ (doubles : Doubles) (parse_page : Bytes → Option PageText) where
  open doubles use {stod}

  -- A blank; `true` is the `break`. The fourth field is taken while `pos` is 0, and the blank kept
  -- otherwise.
  unfoldable pub older_blank :
      LineState doubles parse_page → Option (Bool × LineState doubles parse_page)
  older_blank s =
      if not s.key_flag
      then some (false, record s { key = s.tmp; tmp = []; key_flag = true })
      else if not s.id_flag
      then stoi s.tmp >>= (λ n. some (false, record s { id = n; tmp = []; id_flag = true }))
      else if not s.w_flag
      then stod s.tmp >>= (λ x. some (false, record s { w = x; tmp = []; w_flag = true }))
      else ite (ℤ_discrete s.at (pos 0))
          (stoi s.tmp >>= (λ n. some (true, record s { at = n; tmp = []; pos_flag = true })))
          (some (false, record s { tmp = s.tmp ++ (32 ∷ []) }))

  unfoldable pub older_bytes :
      Bytes → LineState doubles parse_page → Option (LineState doubles parse_page)
  unfolding older_blank
  older_bytes [] s = some s
  older_bytes (c ∷ line) s =
      (if c == 32 then older_blank s else some (false, record s { tmp = s.tmp ++ (c ∷ []) }))
      >>= λ r. elim r.0 [ true ↦ some r.1 | false ↦ older_bytes line r.1 ]

  unfoldable pub older_line : Bytes → Table doubles parse_page → Option (Table doubles parse_page)
  older_line line table = do
    s ← older_bytes line (line_start doubles parse_page table)
    some (
        assign Bytes_discrete s.key
          (set_insert (posting_less doubles parse_page) (record { id = s.id; w = s.w; at = s.at })
            (postings doubles parse_page s.key s.table))
          s.table)

  unfoldable pub older_lines :
      List Bytes → Table doubles parse_page → Option (Table doubles parse_page)
  older_lines [] table = some table
  older_lines (l ∷ ls) table = do table' ← older_line l table; older_lines ls table'

  unfoldable pub older_init : Bytes → Option (Table doubles parse_page)
  older_init text = older_lines (until_empty (getlines text)) []

  -- The bytes of a field are gathered; a comma is one of them.
  field_bytes :
      (w rest : Bytes) (s : LineState doubles parse_page)
      → IsField w
      → older_bytes (w ++ rest) s ≡ older_bytes rest (record s { tmp = s.tmp ++ w })
  unfolding older_bytes
  field_bytes [] rest s h = ground (arith, append-nil s.tmp)
  field_bytes (c ∷ w) rest s h = ground (
    arith,
    h.0,
    field_bytes w rest (record s { tmp = s.tmp ++ (c ∷ []) }) h.1,
    append_assoc s.tmp (c ∷ []) w,
  )

  field_blank :
      (w rest : Bytes) (s s' : LineState doubles parse_page)
      → IsField w
      → older_blank (record s { tmp = s.tmp ++ w }) ≡ some (false, s')
      → older_bytes (w ++ (32 ∷ rest)) s ≡ older_bytes rest s'
  unfolding older_bytes
  field_blank w rest s s' h e = field_bytes w (32 ∷ rest) s h ∙ ground (arith, e)

  -- The field at which the loop breaks.
  field_last :
      (w rest : Bytes) (s s' : LineState doubles parse_page)
      → IsField w
      → older_blank (record s { tmp = s.tmp ++ w }) ≡ some (true, s')
      → older_bytes (w ++ (32 ∷ rest)) s ≡ some s'
  unfolding older_bytes
  field_last w rest s s' h e = field_bytes w (32 ∷ rest) s h ∙ ground (arith, e)

  -- Of a line that `store` writes for a word, only the first posting is taken, however many there
  -- are.
  pub older_line-first :
      (print : doubles.Real → Bytes) (key : Bytes) (p : Posting doubles parse_page)
      (ps : List (Posting doubles parse_page)) (table : Table doubles parse_page)
      → IsField key
      → IsWritten doubles parse_page print p
      → older_line (key ++ (32 ∷ store_postings doubles parse_page print (p ∷ ps))) table
        ≡ some (inserted doubles parse_page key p table)
  unfolding older_line older_blank store_postings
  older_line-first print key p ps table field h =
      let rest = 44 ∷ store_postings doubles parse_page print ps in
      let s₀ = line_start doubles parse_page table in
      let s₁ : LineState doubles parse_page = record s₀ { key = key; key_flag = true } in
      let s₂ : LineState doubles parse_page = record s₁ { id = p.id; id_flag = true } in
      let s₃ : LineState doubles parse_page = record s₂ { w = p.w; w_flag = true } in
      let s₄ : LineState doubles parse_page = record s₃ { at = p.at; pos_flag = true } in
      let read =
        field_blank key (decimal p.id ++ (32 ∷ print p.w ++ (32 ∷ decimal p.at ++ (32 ∷ rest)))) s₀
          s₁ field refl
        ∙ field_blank (decimal p.id) (print p.w ++ (32 ∷ decimal p.at ++ (32 ∷ rest))) s₁ s₂
            (decimal-IsField p.id) (ground (arith, stoi-decimal p.id h.id_fits))
        ∙ field_blank (print p.w) (decimal p.at ++ (32 ∷ rest)) s₂ s₃ h.field
            (ground (arith, h.exact))
        ∙ field_last (decimal p.at) rest s₃ s₄ (decimal-IsField p.at)
            (ground (arith, stoi-decimal p.at h.at_fits)) in
      rw (older_line, read) refl
