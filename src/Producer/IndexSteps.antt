-- ===== src/Producer/IndexSteps.antt =====
-- One line of dictIndex.dat, as `DictProducer::store` of recommanderDump/DictProducer.cc writes it
-- and `Dictionary::initIndex` of src/recommander/Dictionary.cc reads it.
use simple_search_enginer.Prelude.{
  ℕ, suc, ◌<◌, ◌≤◌, ◌≡◌, ◌≢◌, refl, sym, ap, ◌∙◌, true, false, some, List, [], ◌∷◌, ◌++◌, Bytes,
  Bytes_discrete, arith, All, ℤ, pos, negsuc, ltz, stoi, is_digit, assign,
}
use mathlib.Core.List.{append_assoc, append-nil}
use simple_search_enginer.Dictionary.{set_at}
use simple_search_enginer.Dictionary.Files.{
  insert_int, close_number, keep_byte, index_byte, index_bytes,
}
use simple_search_enginer.Producer.{decimal, store_set}
use simple_search_enginer.Producer.Decimal.{
  IsDigit, stoi-decimal, stoi-blank, decimal-IsDigit, decimal_nonempty,
}

abbrev pub Index : Type 0
Index = List (Bytes × List ℤ)

-- The text is read as a word: no blank, no newline and no digit.
abbrev pub IsName : Bytes → Type 0
IsName = All (λ c. (c ≢ 32) × (c ≢ 10) × (is_digit c ≡ false))

-- Positions from `low` on, ascending and within an `int`.
abbrev pub Climbs : ℕ → List ℤ → Type 0
Climbs low [] = Unit
Climbs low (negsuc n ∷ ns) = ⊥
Climbs low (pos n ∷ ns) = (low ≤ n) × (n < 2147483648) × Climbs (suc n) ns

abbrev Below : ℕ → List ℤ → Type 0
Below high = All (λ x. ltz x (pos high) ≡ true)

insert-last : (n : ℕ) (xs : List ℤ) → Below n xs → insert_int (pos n) xs ≡ xs ++ (pos n ∷ [])
unfolding insert_int ltz
insert-last n [] h = refl
insert-last n (pos x ∷ xs) h = ground (arith, h.0, insert-last n xs h.1)
insert-last n (negsuc x ∷ xs) h = ground (arith, insert-last n xs h.1)

Below-next : (n m : ℕ) (xs : List ℤ) → n < m → Below n xs → Below m (xs ++ (pos n ∷ []))
unfolding ltz
Below-next n m [] lt h = (ground arith, tt)
Below-next n m (pos x ∷ xs) lt h = (ground (arith, h.0), Below-next n m xs lt h.1)
Below-next n m (negsuc x ∷ xs) lt h = (refl, Below-next n m xs lt h.1)

-- The index while one line is read: the new entry stands last, once it has a number.
abbrev with_last : Index → Bytes → List ℤ → Index
with_last index w [] = index
with_last index w (n ∷ ns) = index ++ ((w, n ∷ ns) ∷ [])

set_at-with_last :
    (index : Index) (w : Bytes) (ns : List ℤ)
    → All (λ (e : Bytes × List ℤ). e.0 ≢ w) index
    → set_at w (with_last index w ns) ≡ ns
unfolding set_at
set_at-with_last [] w [] h = refl
set_at-with_last [] w (n ∷ ns) h = ground arith
set_at-with_last ((v, ms) ∷ index) w [] h = ground (arith, h.0, set_at-with_last index w [] h.1)
set_at-with_last ((v, ms) ∷ index) w (n ∷ ns) h =
    ground (arith, h.0, set_at-with_last index w (n ∷ ns) h.1)

assign-with_last :
    (index : Index) (w : Bytes) (ns ms : List ℤ)
    → All (λ (e : Bytes × List ℤ). e.0 ≢ w) index
    → assign Bytes_discrete w ms (with_last index w ns) ≡ index ++ ((w, ms) ∷ [])
unfolding assign
assign-with_last [] w [] ms h = refl
assign-with_last [] w (n ∷ ns) ms h = ground arith
assign-with_last ((v, us) ∷ index) w [] ms h =
    ground (arith, h.0, assign-with_last index w [] ms h.1)
assign-with_last ((v, us) ∷ index) w (n ∷ ns) ms h =
    ground (arith, h.0, assign-with_last index w (n ∷ ns) ms h.1)

-- The word of a line is read byte by byte.
name_bytes :
    (w rest word : Bytes) (index : Index)
    → IsName w
    → index_bytes (w ++ rest) (record { flag = false; word = word; num = []; index = index })
      ≡ index_bytes rest (record { flag = false; word = word ++ w; num = []; index = index })
unfolding index_bytes index_byte close_number keep_byte
name_bytes [] rest word index h =
    ap (λ u. index_bytes rest (record { flag = false; word = u; num = []; index = index }))
      (sym (append-nil word))
name_bytes (c ∷ w) rest word index h = ground (
  arith,
  h.0.0,
  h.0.2,
  name_bytes w rest (word ++ (c ∷ [])) index h.1,
  append_assoc word (c ∷ []) w,
)

digit_bytes :
    (w rest word num : Bytes) (index : Index)
    → All IsDigit w
    → index_bytes (w ++ rest) (record { flag = true; word = word; num = num; index = index })
      ≡ index_bytes rest (record { flag = true; word = word; num = num ++ w; index = index })
unfolding index_bytes index_byte close_number keep_byte
digit_bytes [] rest word num index h =
    ap (λ u. index_bytes rest (record { flag = true; word = word; num = u; index = index }))
      (sym (append-nil num))
digit_bytes (c ∷ w) rest word num index h =
    ground
      (arith, h.0, digit_bytes w rest word (num ++ (c ∷ [])) index h.1, append_assoc num (c ∷ []) w)

with_last-append :
    (index : Index) (w : Bytes) (xs : List ℤ) (n : ℤ)
    → index ++ ((w, xs ++ (n ∷ [])) ∷ []) ≡ with_last index w (xs ++ (n ∷ []))
with_last-append index w [] n = refl
with_last-append index w (x ∷ xs) n = refl

-- The blank after a number puts it into the set.
close_step :
    (w num rest : Bytes) (index : Index) (xs : List ℤ) (n : ℕ)
    → stoi num ≡ some (pos n)
    → All (λ (e : Bytes × List ℤ). e.0 ≢ w) index
    → Below n xs
    → index_bytes
        (32 ∷ rest)
        (record { flag = true; word = w; num = num; index = with_last index w xs })
      ≡ index_bytes rest (record {
        flag = true;
        word = w;
        num = 32 ∷ [];
        index = with_last index w (xs ++ (pos n ∷ []));
      })
unfolding index_bytes index_byte close_number keep_byte
close_step w num rest index xs n read fresh below =
    let set = set_at-with_last index w xs fresh in
    let inserted = insert-last n xs below in
    let stored = assign-with_last index w xs (xs ++ (pos n ∷ [])) fresh in
    rw (read, set, inserted, stored, with_last-append index w xs (pos n)) refl

-- A number and its blank, where a number was read before.
number_step :
    (w rest : Bytes) (index : Index) (xs : List ℤ) (n : ℕ)
    → n < 2147483648
    → All (λ (e : Bytes × List ℤ). e.0 ≢ w) index
    → Below n xs
    → index_bytes
        (decimal (pos n) ++ (32 ∷ rest))
        (record { flag = true; word = w; num = 32 ∷ []; index = with_last index w xs })
      ≡ index_bytes rest (record {
        flag = true;
        word = w;
        num = 32 ∷ [];
        index = with_last index w (xs ++ (pos n ∷ []));
      })
number_step w rest index xs n fits fresh below =
    digit_bytes (decimal (pos n)) (32 ∷ rest) w (32 ∷ []) (with_last index w xs) (decimal-IsDigit n)
    ∙ close_step w (32 ∷ decimal (pos n)) rest index xs n
        (stoi-blank (decimal (pos n)) ∙ stoi-decimal (pos n) fits) fresh below

first_digit :
    (w rest s : Bytes) (index : Index)
    → All IsDigit s
    → (c : ℕ) × (t : Bytes) × (s ≡ c ∷ t)
    → index_bytes (s ++ (32 ∷ rest)) (record { flag = false; word = w; num = []; index = index })
      ≡ index_bytes (32 ∷ rest) (record { flag = true; word = w; num = s; index = index })
unfolding index_bytes index_byte close_number keep_byte is_digit
first_digit w rest [] index all (c, t, e) = cc
first_digit w rest (c ∷ s) index all some_digit =
    ground (arith, all.0, digit_bytes s (32 ∷ rest) w (c ∷ []) index all.1)

-- The first number of a line.
first_step :
    (w rest : Bytes) (index : Index) (n : ℕ)
    → n < 2147483648
    → All (λ (e : Bytes × List ℤ). e.0 ≢ w) index
    → index_bytes
        (decimal (pos n) ++ (32 ∷ rest))
        (record { flag = false; word = w; num = []; index = index })
      ≡ index_bytes rest
          (record { flag = true; word = w; num = 32 ∷ []; index = with_last index w (pos n ∷ []) })
first_step w rest index n fits fresh =
    first_digit w rest (decimal (pos n)) index (decimal-IsDigit n) (decimal_nonempty n)
    ∙ close_step w (decimal (pos n)) rest index [] n (stoi-decimal (pos n) fits) fresh tt

-- The rest of the numbers of a line.
set_bytes :
    (ns : List ℤ) (low : ℕ) (w : Bytes) (index : Index) (xs : List ℤ)
    → Climbs low ns
    → All (λ (e : Bytes × List ℤ). e.0 ≢ w) index
    → ((n : ℕ) → low ≤ n → Below n xs)
    → index_bytes
        (store_set ns)
        (record { flag = true; word = w; num = 32 ∷ []; index = with_last index w xs })
      ≡ some (record { flag = true; word = w; num = 32 ∷ []; index = with_last index w (xs ++ ns) })
unfolding store_set index_bytes
set_bytes [] low w index xs climbs fresh below =
    ap (λ u. some (record { flag = true; word = w; num = 32 ∷ []; index = with_last index w u }))
      (sym (append-nil xs))
set_bytes (negsuc n ∷ ns) low w index xs climbs fresh below = absurd climbs
set_bytes (pos n ∷ ns) low w index xs climbs fresh below =
    number_step w (store_set ns) index xs n climbs.1 fresh (below n climbs.0)
    ∙ set_bytes ns (suc n) w index (xs ++ (pos n ∷ [])) climbs.2 fresh
        (λ m le. Below-next n m xs le (below n climbs.0))
    ∙ ap (λ u. some (record { flag = true; word = w; num = 32 ∷ []; index = with_last index w u }))
        (append_assoc xs (pos n ∷ []) ns)

blank_step :
    (w rest : Bytes) (index : Index)
    → index_bytes (32 ∷ rest) (record { flag = false; word = w; num = []; index = index })
      ≡ index_bytes rest (record { flag = false; word = w; num = []; index = index })
unfolding index_bytes index_byte
blank_step w rest index = refl

-- A line that `store` writes is read as its entry.
pub index_bytes-store_set :
    (w : Bytes) (ns : List ℤ) (index : Index)
    → IsName w
    → ns ≢ []
    → Climbs 0 ns
    → All (λ (e : Bytes × List ℤ). e.0 ≢ w) index
    → index_bytes
        (w ++ (32 ∷ store_set ns))
        (record { flag = false; word = []; num = []; index = index })
      ≡ some (record { flag = true; word = w; num = 32 ∷ []; index = index ++ ((w, ns) ∷ []) })
unfolding store_set
index_bytes-store_set w [] index name some_n climbs fresh = absurd (some_n refl)
index_bytes-store_set w (negsuc n ∷ ns) index name some_n climbs fresh = absurd climbs
index_bytes-store_set w (pos n ∷ ns) index name some_n climbs fresh =
    name_bytes w (32 ∷ decimal (pos n) ++ (32 ∷ store_set ns)) [] index name
    ∙ blank_step w (decimal (pos n) ++ (32 ∷ store_set ns)) index
    ∙ first_step w (store_set ns) index n climbs.1 fresh
    ∙ set_bytes ns (suc n) w index (pos n ∷ []) climbs.2 fresh
        (λ m le. (unfold ltz in (ground arith), tt))
