-- ===== src/Client/Runs.antt =====
-- Tests of the client's loops, and their theorems at two pages and a small server.
use simple_search_enginer.Prelude.{
  ℕ, suc, ◌≡◌, refl, false, none, some, List, [], ◌∷◌, ◌++◌, Bytes, arith, All, length, pos, stoi,
  skip_spaces, signed, unsigned, is_digit, is_space, digits, positive,
}
use simple_search_enginer.Protocol.{pack, int_bytes}
use simple_search_enginer.Client.{
  ClientPage, show_loop, show, next_idx, move, page_loop, unpack, Remote, Session,
}
use simple_search_enginer.Client.Windows
use simple_search_enginer.Client.Windows.{IsWindow, keys}
use simple_search_enginer.Client.Picking.{Answers}

-- A page with the number `n`.
abbrev page : ℕ → ClientPage
page n = record { id = pos n; title = []; link = []; description = [] }

abbrev six : List ClientPage
six = page 1 ∷ page 2 ∷ page 3 ∷ page 4 ∷ page 5 ∷ page 6 ∷ []

-- "n b", "q" and "4" with newlines
unpack-windows_example :
    (screens : List (List ClientPage)) × (unpack six ((110 ∷ 32 ∷ 98 ∷ []) ++ (113 ∷ 10 ∷ 52 ∷ []))
      ≡ some (screens, 52 ∷ []))
    × (length screens ≡ suc (keys (110 ∷ 32 ∷ 98 ∷ [])))
    × All (IsWindow six) screens
unpack-windows_example =
    Windows.unpack-windows six (110 ∷ 32 ∷ 98 ∷ []) (10 ∷ 52 ∷ []) (omega arith)

-- The second screen starts at the second page.
unpack-six :
    unpack six (110 ∷ 113 ∷ [])
    ≡ some (
      (page 1 ∷ page 2 ∷ page 3 ∷ page 4 ∷ page 5 ∷ [])
          ∷ (page 2 ∷ page 3 ∷ page 4 ∷ page 5 ∷ page 6 ∷ [])
          ∷ [],
      [],
    )
unfolding unpack page_loop show show_loop move next_idx is_space
unpack-six = refl

-- A server that counts the requests, has the keys "a" and "b", and finds six pages.
abbrev counter : Remote
counter = record {
  State = ℕ;
  exchange = λ n request. some (suc n, request);
  read_values = λ buff. none;
  read_pages = λ buff. some six;
  read_keys = λ buff. some ((97 ∷ []) ∷ (98 ∷ []) ∷ []);
}

abbrev fresh : Session counter
fresh = record {
  server = 0;
  stdin = [];
  sent = [];
  shown = [];
  re_flag = false;
  line = [];
  op_id = pos 0;
  recommander_key = [];
}

-- The requests for random keys and for "b".
abbrev key_request : Bytes
key_request = 0 ∷ 0 ∷ 0 ∷ 0 ∷ 3 ∷ 0 ∷ 0 ∷ 0 ∷ 10 ∷ []

abbrev page_request : Bytes
page_request = 1 ∷ 0 ∷ 0 ∷ 0 ∷ 2 ∷ 0 ∷ 0 ∷ 0 ∷ 98 ∷ 10 ∷ []

counter-Answers : Answers counter 0 1 (98 ∷ []) six
unfolding pack int_bytes
counter-Answers = record {
  first = key_request;
  packed_first = refl;
  between = 1;
  key_buff = key_request;
  exchanged = refl;
  keys = (97 ∷ []) ∷ (98 ∷ []) ∷ [];
  keys_read = refl;
  picked = refl;
  second = page_request;
  packed_second = refl;
  last = 2;
  page_buff = page_request;
  searched = refl;
  pages_read = refl;
}

stoi-two : stoi (50 ∷ []) ≡ some (pos 2)
unfolding stoi skip_spaces signed unsigned is_digit is_space digits positive
stoi-two = refl
