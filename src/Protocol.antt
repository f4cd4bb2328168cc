-- ===== src/Protocol.antt =====
-- The messages between client/clientTest.cc and src/cache/MyTask.cc. An `int` is its 32-bit
-- pattern, a number below 2 ^ 32, and memory is little-endian.
pub mod Packing
pub mod Dispatch
mod Runs
use simple_search_enginer.Prelude.{
  ℕ, zero, suc, ◌+◌, ◌*◌, ◌/◌, ◌%◌, ◌≡◌, Bool, true, false, Option, none, some, List, [], ◌∷◌, ◌++◌,
  Bytes, length, ltb, leb, ◌==◌, if◌then◌else◌, ◌>>=◌,
}

-- `memcpy(c, &n, 4)`
unfoldable pub int_bytes : ℕ → Bytes
int_bytes n = n % 256 ∷ n / 256 % 256 ∷ n / 65536 % 256 ∷ n / 16777216 % 256 ∷ []

-- `char a[size] = {0}` with `text` copied to its start, read at `i`; out of the array is `none`.
unfoldable pub text_at : Bytes → ℕ → ℕ
text_at [] i = 0
text_at (c ∷ text) zero = c
text_at (c ∷ text) (suc i) = text_at text i

unfoldable pub array_at : ℕ → Bytes → ℕ → Option ℕ
unfolding text_at
array_at size text i = if ltb i size then some (text_at text i) else none

-- `for (int i = 0; i < n; ++i) buf[i] = request[idx++];`
unfoldable pub copy_loop : ℕ → ℕ → Bytes → ℕ → Option Bytes
unfolding array_at
copy_loop size zero text idx = some []
copy_loop size (suc n) text idx = do
  c ← array_at size text idx
  rest ← copy_loop size n text (suc idx)
  some (c ∷ rest)

-- The text of a zero-terminated array.
unfoldable pub c_str : Bytes → Bytes
c_str [] = []
c_str (c ∷ s) = let rest = c_str s in if c == 0 then [] else c ∷ rest

-- `memcpy(&n, buf, 4)` after four bytes were copied to `buf`.
unfoldable pub read_int : Bytes → Option ℕ
read_int (a ∷ b ∷ c ∷ d ∷ []) = some (a + b * 256 + c * 65536 + d * 16777216)
read_int _ = none

-- The rounds of `for (int i = 0; i < n; ++i)` for the pattern of an `int`: none if it is negative.
unfoldable pub int_rounds : ℕ → ℕ
int_rounds n = if ltb n 2147483648 then n else 0

pub record Message : Type 0 where
  pub msg_len : ℕ
  pub operator_id : ℕ
  pub msg_content : Bytes

-- `MyTask::parse`. The request must fit the array, and each index must lie within it.
unfoldable pub parse : Bytes → Option Message
parse request = if ltb 4096 (length request) then none else (do
  len_bytes ← copy_loop 4096 4 request 0
  len ← read_int len_bytes
  op_bytes ← copy_loop 4096 4 request 4
  op ← read_int op_bytes
  buf ← copy_loop 4096 (int_rounds len) request 8
  some (record { msg_len = len; operator_id = op; msg_content = c_str buf }))

-- `parse` of the client: its length is unsigned.
unfoldable pub client_parse : Bytes → Option Message
client_parse request = if ltb 4096 (length request) then none else (do
  len_bytes ← copy_loop 4096 4 request 0
  len ← read_int len_bytes
  op_bytes ← copy_loop 4096 4 request 4
  op ← read_int op_bytes
  buf ← copy_loop 4096 len request 8
  some (record { msg_len = len; operator_id = op; msg_content = c_str buf }))

-- `pack` of the client, appended to `data_out`. The array of 4096 bytes must hold the message.
unfoldable pub pack : Bytes → ℕ → Bytes → Option Bytes
pack line op data_out =
    if leb (8 + length line) 4096
    then some ((data_out ++ (int_bytes (length line) ++ (int_bytes op ++ line))) ++ (10 ∷ []))
    else none

-- `_request.pop_back()`, not allowed on an empty string.
unfoldable pub pop_back : Bytes → Option Bytes
pop_back [] = none
pop_back (c ∷ []) = some []
pop_back (c ∷ d ∷ s) = do rest ← pop_back (d ∷ s); some (c ∷ rest)
