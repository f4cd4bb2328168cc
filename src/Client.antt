-- ===== src/Client.antt =====
-- The client's loops of client/clientTest.cc: `test0`, with the pages of `unpack`.
pub mod Windows
pub mod Picking
mod Runs
use mathlib.Core.Option
use simple_search_enginer.Prelude.{
  ℕ, zero, suc, ◌+◌, ◌-◌, Bool, true, false, not, ◌&&◌, ◌||◌, Option, none, some, List, [], ◌∷◌,
  ◌++◌, Bytes, ℤ, pos, negsuc, ℤ_discrete, ite, stoi, ltb, ◌==◌, if◌then◌else◌, ◌>>=◌, length,
  get_elem?, drop, is_space,
}
use simple_search_enginer.Protocol.{pack, c_str}

-- `WebPage` of the client.
pub record ClientPage : Type 0 where
  pub id : ℤ
  pub title : Bytes
  pub link : Bytes
  pub description : List Bytes

-- `for (int i = i; i < idx; ++i)` over `vecPage[i]`, with the rounds that are left. An index out of
-- range is undefined behaviour.
unfoldable pub show_loop : ℕ → ℕ → List ClientPage → Option (List ClientPage)
show_loop zero i pages = some []
show_loop (suc rounds) i pages = do
  page ← get_elem? pages i
  rest ← show_loop rounds (suc i) pages
  some (page ∷ rest)

-- The pages before `idx` that are printed.
unfoldable pub show : ℕ → List ClientPage → Option (List ClientPage)
show idx pages = let first = if ltb idx 5 then 0 else idx - 5 in show_loop (idx - first) first pages

unfoldable pub next_idx : ℕ → ℕ → ℕ
next_idx size idx = if ltb size (idx + 5) then size else idx + 5

unfoldable pub back_idx : ℕ → ℕ → ℕ
back_idx size idx = if ltb idx 10 then (if ltb size 5 then size else 5) else idx - 5

-- `n`, `b`, and any key but `q`.
unfoldable pub move : ℕ → ℕ → ℕ → ℕ
unfolding next_idx back_idx
move size op idx =
    if op == 110 then next_idx size idx else (if op == 98 then back_idx size idx else idx)

-- The loop over what is typed: what was shown, and the input behind `q` and the byte after it. At
-- the end of the input the loop does not end.
unfoldable pub page_loop : List ClientPage → ℕ → Bytes → Option (List (List ClientPage) × Bytes)
page_loop pages idx [] = none
page_loop pages idx (op ∷ stdin) =
    let rest = page_loop pages (if is_space op then idx else move (length pages) op idx) stdin in
    if is_space op then rest else (do
      screen ← show idx pages
      if op == 113
          then some (screen ∷ [], drop 1 stdin)
          else (rest >>= λ r. some (screen ∷ r.0, r.1)))

-- `unpack`
unfoldable pub unpack : List ClientPage → Bytes → Option (List (List ClientPage) × Bytes)
unfolding page_loop next_idx
unpack pages stdin = page_loop pages (next_idx (length pages) 0) stdin

-- `getline(cin, line)`; at the end of the input the line is empty.
unfoldable pub get_line : Bytes → Bytes × Bytes
get_line [] = ([], [])
get_line (c ∷ s) = let rest = get_line s in if c == 10 then ([], s) else (c ∷ rest.0, rest.1)

-- The server behind the socket, with what one `recv` puts into the buffer of zeros, and the JSON
-- reader; `none` is an exception.
pub record Remote : Type 1 where
  pub State : Type 0
  pub exchange : State → Bytes → Option (State × Bytes)
  pub read_values : Bytes → Option (Bytes × List Bytes)
  pub read_pages : Bytes → Option (List ClientPage)
  pub read_keys : Bytes → Option (List Bytes)

module _ (remote : Remote) where
  open remote use {State, exchange, read_values, read_pages, read_keys}

  -- The variables of `test0`, with the server, the input, and what was sent and shown. `soFlag` is
  -- never set and left out.
  pub record Session : Type 0 where
    pub server : State
    pub stdin : Bytes
    pub sent : List Bytes
    pub shown : List (List ClientPage)
    pub re_flag : Bool
    pub line : Bytes
    pub op_id : ℤ
    pub recommander_key : Bytes

  -- The selection is read if no key is pending.
  unfoldable pub select : Session → Option Session
  unfolding get_line
  select s =
      let got = get_line s.stdin in
      if s.re_flag
      then some s
      else (stoi got.0 >>= λ n. some (record s { line = got.0; stdin = got.1; op_id = n }))

  -- The key to search for: the one that is pending, or one that is typed.
  unfoldable pub ask : Session → Session
  unfolding get_line
  ask s =
      if s.re_flag
      then record s { line = s.recommander_key; re_flag = false }
      else record s { line = (get_line s.stdin).0; stdin = (get_line s.stdin).1 }

  -- `pack`, `send` and `recv`
  unfoldable pub talk : Bytes → ℕ → Session → Option (Session × Bytes)
  talk text op s = do
    data_out ← pack text op []
    r ← exchange s.server data_out
    some (record s { server = r.0; sent = s.sent ++ (data_out ∷ []) }, c_str r.1)

  unfoldable pub suggest : Session → Option Session
  unfolding ask talk
  suggest s = do r ← talk (ask s).line 1 (ask s); _ ← read_values r.1; some r.0

  unfoldable pub search : Session → Option Session
  unfolding ask talk unpack
  search s = do
    r ← talk (ask s).line 2 (ask s)
    pages ← read_pages r.1
    got ← unpack pages r.0.stdin
    some (record r.0 { stdin = got.1; shown = r.0.shown ++ got.0 })

  -- `keys[std::stoi(line) - 1]`: out of range is undefined behaviour.
  unfoldable pub pick : List Bytes → ℤ → Option Bytes
  pick keys (pos (suc n)) = get_elem? keys n
  pick keys _ = none

  unfoldable pub random_keys : Session → Option Session
  unfolding talk get_line pick
  random_keys s = do
    r ← talk [] 3 s
    keys ← read_keys r.1
    n ← stoi (get_line r.0.stdin).0
    key ← pick keys n
    some (record r.0 {
      line = (get_line r.0.stdin).0;
      stdin = (get_line r.0.stdin).1;
      op_id = pos 2;
      recommander_key = key;
      re_flag = true;
    })

  -- One round of the loop; `false` is its `break`.
  unfoldable pub round : Session → Option (Bool × Session)
  unfolding select suggest search random_keys
  round before = do
    s ← select before
    ite (ℤ_discrete s.op_id (pos 1)) (suggest s >>= λ t. some (true, t)) (
        ite (ℤ_discrete s.op_id (pos 2)) (search s >>= λ t. some (true, t)) (
          ite (ℤ_discrete s.op_id (pos 4)) (some (false, s)) (
            ite (ℤ_discrete s.op_id (pos 3)) (random_keys s >>= λ t. some (true, t))
              (some (true, s)))))

  -- `while (1)`, at most as many rounds as the fuel says.
  unfoldable pub test0 : ℕ → Session → Option Session
  unfolding round
  test0 zero s = none
  test0 (suc fuel) s = do r ← round s; let rest = test0 fuel r.1; if r.0 then rest else some r.1
