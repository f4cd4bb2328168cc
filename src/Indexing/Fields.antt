-- ===== src/Indexing/Fields.antt =====
-- One posting of the inverted index, as `store` of pageDump/PagePreProcessor.cc writes it and
-- `initInvertIndex` of src/WebPageSearcher.cc reads it.
use mathlib.Core.List.{append_assoc, append-nil}
use simple_search_enginer.Prelude.{
  ◌≡◌, ◌≢◌, refl, ◌∙◌, true, false, Option, some, [], ◌∷◌, ◌++◌, arith, All, Bytes, Bytes_discrete,
  ℤ, assign, set_insert, Without,
}
use simple_search_enginer.Producer.{decimal}
use simple_search_enginer.Producer.Decimal.{FitsInt, stoi-decimal, decimal-Without}
use simple_search_enginer.Searcher.{Doubles, PageText, Posting, Table, posting_less, postings}
use simple_search_enginer.Searcher.Files.{LineState, blank, index_byte, index_bytes}

-- A field: no blank and no comma.
abbrev pub IsField : Bytes → Type 0
IsField = All (λ c. (c ≢ 32) × (c ≢ 44))

both-IsField : (w : Bytes) → Without 32 w → Without 44 w → IsField w
both-IsField [] h k = tt
both-IsField (c ∷ w) h k = ((h.0, k.0), both-IsField w h.1 k.1)

pub decimal-IsField : (z : ℤ) → IsField (decimal z)
decimal-IsField z =
    both-IsField (decimal z) (decimal-Without 32 z (omega arith))
      (decimal-Without 44 z (omega arith))

module _ (doubles : Doubles) (parse_page : Bytes → Option PageText) where
  open doubles use {Real, stod}

  -- The bytes of a field are gathered.
  field_bytes :
      (w rest : Bytes) (s : LineState doubles parse_page)
      → IsField w
      → index_bytes doubles parse_page (w ++ rest) s
        ≡ index_bytes doubles parse_page rest (record s { tmp = s.tmp ++ w })
  unfolding index_bytes index_byte
  field_bytes [] rest s h = ground (arith, append-nil s.tmp)
  field_bytes (c ∷ w) rest s h = ground (
    arith,
    h.0,
    field_bytes w rest (record s { tmp = s.tmp ++ (c ∷ []) }) h.1,
    append_assoc s.tmp (c ∷ []) w,
  )

  -- A field and the blank that ends it.
  pub field_blank :
      (w rest : Bytes) (s s' : LineState doubles parse_page)
      → IsField w
      → blank doubles parse_page (record s { tmp = s.tmp ++ w }) ≡ some s'
      → index_bytes doubles parse_page (w ++ (32 ∷ rest)) s ≡ index_bytes doubles parse_page rest s'
  unfolding index_bytes index_byte
  field_blank w rest s s' h e = field_bytes w (32 ∷ rest) s h ∙ ground (arith, e)

  -- Between two postings: the key is read, and nothing else.
  abbrev pub keyed : Bytes → ℤ → Real → ℤ → Table doubles parse_page → LineState doubles parse_page
  keyed key id w at table = record {
    key_flag = true;
    id_flag = false;
    w_flag = false;
    pos_flag = false;
    key = key;
    id = id;
    w = w;
    at = at;
    tmp = [];
    table = table;
  }

  -- The table with one posting more under the key.
  abbrev pub inserted :
      Bytes → Posting doubles parse_page → Table doubles parse_page → Table doubles parse_page
  inserted key p table =
      assign Bytes_discrete key
        (set_insert (posting_less doubles parse_page) p (postings doubles parse_page key table))
        table

  -- The numbers fit an `int`, and the weight is read as it was written.
  pub record IsWritten (print : Real → Bytes) (p : Posting doubles parse_page) : Type 0 where
    pub id_fits : FitsInt p.id
    pub at_fits : FitsInt p.at
    pub field : IsField (print p.w)
    pub exact : stod (print p.w) ≡ some p.w
    pub no_newline : Without 10 (print p.w)

  pub posting_bytes :
      (print : Real → Bytes) (p : Posting doubles parse_page) (rest key : Bytes) (id : ℤ) (w : Real)
      (at : ℤ) (table : Table doubles parse_page)
      → IsWritten print p
      → index_bytes doubles parse_page
          (decimal p.id ++ (32 ∷ print p.w ++ (32 ∷ decimal p.at ++ (32 ∷ 44 ∷ rest))))
          (keyed key id w at table)
        ≡ index_bytes doubles parse_page rest (keyed key p.id p.w p.at (inserted key p table))
  unfolding blank index_bytes index_byte
  posting_bytes print p rest key id w at table h =
      let s₀ = keyed key id w at table in
      let s₁ : LineState doubles parse_page = record s₀ { id = p.id; id_flag = true } in
      let s₂ : LineState doubles parse_page = record s₁ { w = p.w; w_flag = true } in
      let s₃ : LineState doubles parse_page = record s₂ {
        at = p.at;
        pos_flag = true;
        table = inserted key p table;
      } in
      field_blank (decimal p.id) (print p.w ++ (32 ∷ decimal p.at ++ (32 ∷ 44 ∷ rest))) s₀ s₁
        (decimal-IsField p.id) (ground (arith, stoi-decimal p.id h.id_fits))
      ∙ field_blank (print p.w) (decimal p.at ++ (32 ∷ 44 ∷ rest)) s₁ s₂ h.field
          (ground (arith, h.exact))
      ∙ field_blank (decimal p.at) (44 ∷ rest) s₂ s₃ (decimal-IsField p.at)
          (ground (arith, stoi-decimal p.at h.at_fits))
      ∙ refl
