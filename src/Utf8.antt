-- ===== src/Utf8.antt =====
-- The byte counts of characters, which three files of the source compute: `nBytesCode` and
-- `length` of include/recommander/minDistance.h and src/recommander/Dictionary.cc, and
-- `nBytesCode` of src/WebPageSearcher.cc. A byte is a number below 256.
pub mod Lead
pub mod Chars
mod Runs
use simple_search_enginer.Prelude.{
  ℕ, zero, suc, ◌+◌, ◌-◌, ◌/◌, ◌%◌, ◌^◌, Bool, Option, none, some, List, [], ◌∷◌, Bytes, take, drop,
  ◌==◌, if◌then◌else◌, ◌>>=◌, length,
}

-- `ch & (1 << k)`
unfoldable pub has_bit : ℕ → ℕ → Bool
has_bit b k = b / 2 ^ k % 2 == 1

-- `for (int idx = 0; idx < 6; idx++)` of `MinEditDist::nBytesCode`, with the rounds left. After
-- six set bits the function ends without a `return`: undefined behaviour.
unfoldable pub lead_loop? : ℕ → ℕ → ℕ → Option ℕ
unfolding has_bit
lead_loop? b zero len = none
lead_loop? b (suc n) len =
    let more = lead_loop? b n (len + 1) in if has_bit b (n + 1) then more else some len

-- `MinEditDist::nBytesCode`
unfoldable pub n_bytes_code? : ℕ → Option ℕ
unfolding lead_loop?
n_bytes_code? b = if has_bit b 7 then lead_loop? b 6 1 else some 1

-- The same loop with `break`, in `Dictionary` and `WebPageSearcher`.
unfoldable pub lead_loop : ℕ → ℕ → ℕ → ℕ
unfolding has_bit
lead_loop b zero n_bytes = n_bytes
lead_loop b (suc n) n_bytes =
    let more = lead_loop b n (n_bytes + 1) in if has_bit b (n + 1) then more else n_bytes

-- `Dictionary::nBytesCode` and `WebPageSearcher::nBytesCode`
unfoldable pub n_bytes_code : ℕ → ℕ
unfolding lead_loop
n_bytes_code b = if has_bit b 7 then lead_loop b 6 1 else 1

-- `MinEditDist::length`, with the bytes that `idx += bytes - 1` still skips.
unfoldable pub length_loop? : ℕ → Bytes → Option ℕ
length_loop? skip [] = some 0
length_loop? (suc skip) (c ∷ s) = length_loop? skip s
length_loop? zero (c ∷ s) = do
  bytes ← n_bytes_code? c
  len ← length_loop? (bytes - 1) s
  some (suc len)

unfoldable pub length? : Bytes → Option ℕ
unfolding length_loop?
length? s = length_loop? 0 s

-- `Dictionary::length`: the loop ends at `idx == str.size()` only, so an index that skips past the
-- end is read out of bounds.
unfoldable pub dictionary_length_loop : ℕ → Bytes → Option ℕ
dictionary_length_loop zero [] = some 0
dictionary_length_loop (suc skip) [] = none
dictionary_length_loop (suc skip) (c ∷ s) = dictionary_length_loop skip s
dictionary_length_loop zero (c ∷ s) = do
  len ← dictionary_length_loop (n_bytes_code c - 1) s
  some (suc len)

unfoldable pub dictionary_length : Bytes → Option ℕ
unfolding dictionary_length_loop
dictionary_length s = dictionary_length_loop 0 s

-- The character at the start of the text, `substr(idx, nBytes)`, and what follows it.
unfoldable pub next_char : Bytes → Option (Bytes × Bytes)
next_char [] = none
next_char (c ∷ s) = do bytes ← n_bytes_code? c; some (take bytes (c ∷ s), drop bytes (c ∷ s))
