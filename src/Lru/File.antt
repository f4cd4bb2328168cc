-- ===== src/Lru/File.antt =====
-- `writeToFile` and `readFromFile` of src/cache/LRUCache.cc. A file is the bytes that it holds.
pub mod RoundTrip
use simple_search_enginer.Prelude.{
  ℕ, Bool, true, false, Option, List, [], ◌∷◌, ◌++◌, map, Bytes, if◌then◌else◌, ◌==◌, getlines,
  each_byte,
}
use simple_search_enginer.Lru.{Cell, LruCache, put_all}

-- Each value is followed by a space.
unfoldable pub write_values : List Bytes → Bytes
write_values [] = []
write_values (v ∷ vs) = v ++ (b' ' ∷ write_values vs)

-- `key:value value \n`, without the newline.
unfoldable pub write_line : Bytes → List Bytes → Bytes
unfolding write_values
write_line key value = key ++ (b':' ∷ write_values value)

unfoldable pub write_cells : List Cell → Bytes
unfolding write_line
write_cells [] = []
write_cells (c ∷ cs) = write_line c.key c.value ++ (10 ∷ write_cells cs)

unfoldable pub write_to_file : LruCache → Bytes
unfolding write_cells
write_to_file c = write_cells c.lru

-- The locals of the loop over a line.
pub record LineState : Type 0 where
  pub flag : Bool
  pub key : Bytes
  pub value : List Bytes
  pub str : Bytes

unfoldable pub read_byte : LineState → ℕ → LineState
read_byte s c = if c == b':' then record s { flag = true } else elim s.flag [
  | false ↦ record s { key = s.key ++ (c ∷ []) }
  | true ↦
      if c == b' '
      then record s { value = s.value ++ (s.str ∷ []); str = [] }
      else record s { str = s.str ++ (c ∷ []) }
]

abbrev pub line_start : LineState
line_start = record { flag = false; key = []; value = []; str = [] }

unfoldable pub read_line : Bytes → Bytes × List Bytes
unfolding read_byte each_byte
read_line line = let s = each_byte read_byte line_start line in (s.key, s.value)

unfoldable pub read_from_file : LruCache → Bytes → Option LruCache
unfolding read_line
read_from_file c text = put_all c (map read_line (getlines text))
