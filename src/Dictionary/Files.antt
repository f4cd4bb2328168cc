-- ===== src/Dictionary/Files.antt =====
-- `initDict` and `initIndex` of src/recommander/Dictionary.cc, from the text of the files.
use simple_search_enginer.Prelude.{
  ℕ, Bool, true, false, ◌&&◌, Option, some, List, [], ◌∷◌, ◌++◌, Bytes, Bytes_discrete, ℤ, ltz,
  stoi, is_digit, assign, if◌then◌else◌, not, ◌==◌, ◌>>=◌, each_byte, getlines, ◌||◌,
}
use simple_search_enginer.Dictionary.{set_at}

-- The variables of one round of `while(getline(ifs, line))`.
pub record EntryState : Type 0 where
  pub flag : Bool
  pub word : Bytes
  pub fre : Bytes

unfoldable pub entry_byte : EntryState → ℕ → EntryState
entry_byte s c =
    if c == 32
    then record s { flag = true }
    else if s.flag
    then record s { fre = s.fre ++ (c ∷ []) }
    else record s { word = s.word ++ (c ∷ []) }

abbrev pub entry_start : EntryState
entry_start = record { flag = false; word = []; fre = [] }

unfoldable pub entry_line : Bytes → Option (Bytes × ℤ)
unfolding entry_byte each_byte
entry_line line =
    let s = each_byte entry_byte entry_start line in do fre ← stoi s.fre; some (s.word, fre)

unfoldable pub entry_lines : List Bytes → Option (List (Bytes × ℤ))
unfolding entry_line
entry_lines [] = some []
entry_lines (l ∷ ls) = do entry ← entry_line l; entries ← entry_lines ls; some (entry ∷ entries)

unfoldable pub init_dict : Bytes → Option (List (Bytes × ℤ))
unfolding entry_lines
init_dict text = entry_lines (getlines text)

-- `set<int>::insert`, on the ascending elements.
unfoldable pub insert_int : ℤ → List ℤ → List ℤ
insert_int x [] = x ∷ []
insert_int x (y ∷ ys) =
    let rest = insert_int x ys in
    if ltz x y then x ∷ y ∷ ys else if ltz y x then y ∷ rest else y ∷ ys

pub record IndexState : Type 0 where
  pub flag : Bool
  pub word : Bytes
  pub num : Bytes
  pub index : List (Bytes × List ℤ)

-- `if(flag && line[i] == ' ')`: the number is complete. The blank is then kept before the next.
unfoldable pub close_number : ℕ → IndexState → Option IndexState
unfolding insert_int
close_number c s =
    if s.flag && c == 32
    then stoi s.num >>= (λ n. some (record s {
      index = assign Bytes_discrete s.word (insert_int n (set_at s.word s.index)) s.index;
      num = [];
    }))
    else some s

-- The two tests after it.
unfoldable pub keep_byte : ℕ → IndexState → IndexState
keep_byte c s =
    if s.flag || is_digit c
    then record s { flag = true; num = s.num ++ (c ∷ []) }
    else record s { word = s.word ++ (c ∷ []) }

unfoldable pub index_byte : ℕ → IndexState → Option IndexState
index_byte c s =
    if not s.flag && c == 32 then some s else close_number c s >>= (λ s'. some (keep_byte c s'))

unfoldable pub index_bytes : Bytes → IndexState → Option IndexState
index_bytes [] s = some s
index_bytes (c ∷ line) s = do s' ← index_byte c s; index_bytes line s'

unfoldable pub index_lines : List Bytes → List (Bytes × List ℤ) → Option (List (Bytes × List ℤ))
index_lines [] index = some index
index_lines (l ∷ ls) index = do
  s ← index_bytes l (record { flag = false; word = []; num = []; index = index })
  index_lines ls s.index

unfoldable pub init_index : Bytes → Option (List (Bytes × List ℤ))
init_index text = index_lines (getlines text) []
