-- ===== src/Searcher/Files.antt =====
-- `initInvertIndex` and `initOffset` of src/WebPageSearcher.cc, from the text of the files.
use simple_search_enginer.Prelude.{
  ℕ, ◌-◌, ◌%◌, Bool, true, false, not, Option, some, List, [], ◌∷◌, ◌++◌, Bytes, Bytes_discrete, ℤ,
  ℤ_discrete, pos, negsuc, stoi, ltb, ◌==◌, if◌then◌else◌, ◌>>=◌, assign, getlines, set_insert,
}
use simple_search_enginer.Searcher.{Doubles, PageText, Table, Offsets, postings, posting_less}

-- The lines up to the first that is empty.
unfoldable pub until_empty : List Bytes → List Bytes
until_empty [] = []
until_empty ([] ∷ ls) = []
until_empty ((c ∷ l) ∷ ls) = (c ∷ l) ∷ until_empty ls

-- A `size_t` as an `int`.
unfoldable pub size_to_int : ℕ → ℤ
size_to_int n =
    let m = n % 4294967296 in if ltb m 2147483648 then pos m else negsuc (4294967295 - m)

module _ (doubles : Doubles) (parse_page : Bytes → Option PageText) where
  open doubles use {Real, of_nat, stod, to_size}

  -- The variables of one line of the inverted index.
  pub record LineState : Type 0 where
    pub key_flag : Bool
    pub id_flag : Bool
    pub w_flag : Bool
    pub pos_flag : Bool
    pub key : Bytes
    pub id : ℤ
    pub w : Real
    pub at : ℤ
    pub tmp : Bytes
    pub table : Table doubles parse_page

  abbrev pub line_start : Table doubles parse_page → LineState
  line_start table = record {
    key_flag = false;
    id_flag = false;
    w_flag = false;
    pos_flag = false;
    key = [];
    id = pos 0;
    w = of_nat 0;
    at = pos 0;
    tmp = [];
    table = table;
  }

  -- `if (!posFlag)`: the posting is complete.
  unfoldable pub take_position : LineState → Option LineState
  take_position s = do
    n ← stoi s.tmp
    some (record s {
      at = n;
      tmp = [];
      pos_flag = true;
      table =
          assign Bytes_discrete s.key
            (set_insert (posting_less doubles parse_page) (record { id = s.id; w = s.w; at = n })
              (postings doubles parse_page s.key s.table))
            s.table;
    })

  -- A blank ends the field that is not read yet; where all are, it is kept.
  unfoldable pub blank : LineState → Option LineState
  unfolding take_position
  blank s =
      if not s.key_flag
      then some (record s { key = s.tmp; tmp = []; key_flag = true })
      else if not s.id_flag
      then stoi s.tmp >>= (λ n. some (record s { id = n; tmp = []; id_flag = true }))
      else if not s.w_flag
      then stod s.tmp >>= (λ x. some (record s { w = x; tmp = []; w_flag = true }))
      else if not s.pos_flag
      then take_position s
      else some (record s { tmp = s.tmp ++ (32 ∷ []) })

  unfoldable pub index_byte : ℕ → LineState → Option LineState
  index_byte c s =
      if c == 44
      then some (record s { id_flag = false; w_flag = false; pos_flag = false })
      else if c == 32
      then blank s
      else some (record s { tmp = s.tmp ++ (c ∷ []) })

  unfoldable pub index_bytes : Bytes → LineState → Option LineState
  index_bytes [] s = some s
  index_bytes (c ∷ line) s = do s' ← index_byte c s; index_bytes line s'

  unfoldable pub index_lines :
      List Bytes → Table doubles parse_page → Option (Table doubles parse_page)
  index_lines [] table = some table
  index_lines (l ∷ ls) table = do s ← index_bytes l (line_start table); index_lines ls s.table

  unfoldable pub init_invert_index : Bytes → Option (Table doubles parse_page)
  init_invert_index text = index_lines (until_empty (getlines text)) []

  -- The variables of one line of the offsets.
  pub record OffsetState : Type 0 where
    pub id_flag : Bool
    pub beg_flag : Bool
    pub end_flag : Bool
    pub id : ℤ
    pub beg_pos : ℤ
    pub end_pos : ℤ
    pub tmp : Bytes

  abbrev pub offset_start : OffsetState
  offset_start = record {
    id_flag = false;
    beg_flag = false;
    end_flag = false;
    id = pos 0;
    beg_pos = pos 0;
    end_pos = pos 0;
    tmp = [];
  }

  -- A blank that ends a field.
  unfoldable pub offset_blank : OffsetState → Option OffsetState
  offset_blank s =
      if not s.id_flag
      then stoi s.tmp >>= (λ n. some (record s { id = n; tmp = []; id_flag = true }))
      else if not s.beg_flag
      then stoi s.tmp >>= (λ n. some (record s { beg_pos = n; tmp = []; beg_flag = true }))
      else stod s.tmp >>= (λ x.
        to_size x >>= (λ n. some (record s { end_pos = size_to_int n; tmp = []; end_flag = true })))

  -- The third field ends the loop.
  unfoldable pub offset_bytes : Bytes → OffsetState → Option OffsetState
  offset_bytes [] s = some s
  offset_bytes (c ∷ line) s =
      if s.end_flag
      then some s
      else (if c == 32 then offset_blank s else some (record s { tmp = s.tmp ++ (c ∷ []) }))
        >>= (λ s'. offset_bytes line s')

  unfoldable pub offset_lines : List Bytes → Offsets → Option Offsets
  offset_lines [] offsets = some offsets
  offset_lines (l ∷ ls) offsets = do
    s ← offset_bytes l offset_start
    offset_lines ls (assign ℤ_discrete s.id (s.beg_pos, s.end_pos) offsets)

  unfoldable pub init_offset : Bytes → Option Offsets
  init_offset text = offset_lines (until_empty (getlines text)) []
