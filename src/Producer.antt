-- ===== src/Producer.antt =====
-- `store` of recommanderDump/DictProducer.cc: the text of the two files that it writes.
pub mod Decimal
pub mod DictFile
pub mod IndexSteps
pub mod IndexFile
pub mod CharIndex
pub mod Loading
pub mod Finding
pub mod Found
mod Runs
use simple_search_enginer.Prelude.{
  ℕ, zero, suc, ◌+◌, ◌/◌, ◌%◌, List, [], ◌∷◌, ◌++◌, Bytes, ℤ, pos, negsuc, if◌then◌else◌, ltb,
}

-- The digits of `n` before the text that follows; the fuel has a unit for each digit.
unfoldable pub decimal_before : ℕ → ℕ → Bytes → Bytes
decimal_before zero n after = after
decimal_before (suc fuel) n after =
    let more = decimal_before fuel (n / 10) ((48 + n % 10) ∷ after) in
    if ltb n 10 then (48 + n) ∷ after else more

-- `ofs << n` for an `int`.
unfoldable pub decimal : ℤ → Bytes
unfolding decimal_before
decimal (pos n) = decimal_before (suc n) n []
decimal (negsuc n) = 45 ∷ decimal_before (suc (suc n)) (suc n) []

-- The loop over `_dict`.
unfoldable pub store_dict : List (Bytes × ℤ) → Bytes
store_dict [] = []
store_dict ((word, fre) ∷ entries) = word ++ (32 ∷ decimal fre ++ (10 ∷ store_dict entries))

-- The inner loop over the set of one character.
unfoldable pub store_set : List ℤ → Bytes
store_set [] = []
store_set (n ∷ ns) = decimal n ++ (32 ∷ store_set ns)

-- The loop over `_index`.
unfoldable pub store_index : List (Bytes × List ℤ) → Bytes
store_index [] = []
store_index ((ch, set) ∷ index) = ch ++ (32 ∷ store_set set ++ (10 ∷ store_index index))
