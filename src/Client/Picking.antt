-- ===== src/Client/Picking.antt =====
-- The choice of a random key in `test0` of client/clientTest.cc.
use mathlib.Core.List.{append_assoc}
use simple_search_enginer.Prelude.{
  ℕ, suc, ◌≡◌, refl, true, false, some, List, [], ◌∷◌, ◌++◌, Bytes, arith, Without, get_elem?, drop,
  stoi, skip_spaces, signed, unsigned, is_digit, is_space, digits, positive, pos, ℤ_discrete, All,
}
use simple_search_enginer.Protocol.{pack, c_str}
use simple_search_enginer.Client.{
  ClientPage, Remote, Session, get_line, select, ask, talk, search, pick, random_keys, round, test0,
  unpack,
}
use simple_search_enginer.Client.Windows.{IsWindow, unpack-windows}

pub get_line-line : (l s : Bytes) → Without 10 l → get_line (l ++ (10 ∷ s)) ≡ (l, s)
unfolding get_line
get_line-line [] s h = refl
get_line-line (c ∷ l) s h = ground (arith, h.0, get_line-line l s h.1)

module _ (remote : Remote) where
  open remote use {State, exchange, read_pages, read_keys}

  -- The server answers a request for random keys, and then one for the pages of a key.
  pub record Answers (s : State) (n : ℕ) (key : Bytes) (pages : List ClientPage) : Type 0 where
    pub first : Bytes
    pub packed_first : pack [] 3 [] ≡ some first
    pub between : State
    pub key_buff : Bytes
    pub exchanged : exchange s first ≡ some (between, key_buff)
    pub keys : List Bytes
    pub keys_read : read_keys (c_str key_buff) ≡ some keys
    pub picked : get_elem? keys n ≡ some key
    pub second : Bytes
    pub packed_second : pack key 2 [] ≡ some second
    pub last : State
    pub page_buff : Bytes
    pub searched : exchange between second ≡ some (last, page_buff)
    pub pages_read : read_pages (c_str page_buff) ≡ some pages

  module _ (s : Session remote) (n : ℕ) (choice key : Bytes) (pages : List ClientPage)
      (a : Answers s.server n key pages) where
    abbrev start : Bytes → Session remote
    start rest = record s { re_flag = false; stdin = 51 ∷ 10 ∷ (choice ++ (10 ∷ rest)) }

    abbrev pending : Bytes → Session remote
    pending rest = record s {
      server = a.between;
      stdin = rest;
      sent = s.sent ++ (a.first ∷ []);
      re_flag = true;
      line = choice;
      op_id = pos 2;
      recommander_key = key;
    }

    abbrev chosen : Bytes → Session remote
    chosen rest = record s {
      re_flag = false;
      stdin = choice ++ (10 ∷ rest);
      line = 51 ∷ [];
      op_id = pos 3;
    }

    select-three : (rest : Bytes) → select remote (start rest) ≡ some (chosen rest)
    unfolding select get_line stoi skip_spaces signed unsigned is_digit is_space digits positive
    select-three rest = refl

    random_keys-pending :
        (rest : Bytes)
        → Without 10 choice
        → stoi choice ≡ some (pos (suc n))
        → random_keys remote (chosen rest) ≡ some (pending rest)
    unfolding random_keys talk pick
    random_keys-pending rest w number =
        rw (a.packed_first, a.exchanged, a.keys_read, get_line-line choice rest w, number, a.picked)
          refl

    round-three :
        (rest : Bytes)
        → Without 10 choice
        → stoi choice ≡ some (pos (suc n))
        → round remote (start rest) ≡ some (true, pending rest)
    unfolding round ℤ_discrete
    round-three rest w number = rw (select-three rest) (rw (random_keys-pending rest w number) refl)

    abbrev done : Bytes → List (List ClientPage) → Session remote
    done rest screens = record s {
      server = a.last;
      stdin = rest;
      sent = (s.sent ++ (a.first ∷ [])) ++ (a.second ∷ []);
      shown = s.shown ++ screens;
      re_flag = false;
      line = key;
      op_id = pos 2;
      recommander_key = key;
    }

    round-search :
        (rest left : Bytes) (screens : List (List ClientPage))
        → unpack pages rest ≡ some (screens, left)
        → round remote (pending rest) ≡ some (true, done left screens)
    unfolding round select search ask talk ℤ_discrete
    round-search rest left screens e = rw (a.packed_second, a.searched, a.pages_read, e) refl

    -- The selection 3, followed by the number of a key, makes the client send the request for
    -- random keys and then the search for exactly that key, without another selection; its pages
    -- are shown, at most five at a time, until `q` is typed, and the loop goes on with what is
    -- typed behind it. The server has to answer both requests, and the number must be that of one
    -- of the keys that it sent.
    pub test0-random_key :
        (fuel : ℕ) (before after : Bytes)
        → Without 10 choice
        → stoi choice ≡ some (pos (suc n))
        → Without 113 before
        → (t : Session remote) × (test0 remote (suc (suc fuel)) (start (before ++ (113 ∷ after)))
            ≡ test0 remote fuel t)
          × (t.sent ≡ s.sent ++ (a.first ∷ a.second ∷ []))
          × (t.line ≡ key)
          × (t.stdin ≡ drop 1 after)
          × (t.re_flag ≡ false)
          × (screens : List (List ClientPage)) × (t.shown ≡ s.shown ++ screens)
          × All (IsWindow pages) screens
    unfolding test0
    test0-random_key fuel before after w number calm =
        let (screens, e, _, wins) = unpack-windows pages before after calm in
        (
          done (drop 1 after) screens,
          rw (round-three (before ++ (113 ∷ after)) w number)
              (rw (round-search (before ++ (113 ∷ after)) (drop 1 after) screens e) refl),
          append_assoc s.sent (a.first ∷ []) (a.second ∷ []),
          refl,
          refl,
          refl,
          screens,
          refl,
          wins,
        )
