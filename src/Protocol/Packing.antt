-- ===== src/Protocol/Packing.antt =====
-- What the client of client/clientTest.cc packs, `MyTask::parse` of src/cache/MyTask.cc reads.
use simple_search_enginer.Prelude.{
  ℕ, ◌+◌, ◌^◌, ◌≤◌, ◌<◌, ◌≡◌, refl, some, [], ◌∷◌, ◌++◌, arith, Bytes, length, length-append,
  Without,
}
use mathlib.Core.List.{append_assoc, append-nil}
use simple_search_enginer.Protocol.{
  int_bytes, text_at, copy_loop, c_str, read_int, int_rounds, parse, client_parse, pack, pop_back,
}

pub pop_back-snoc : (s : Bytes) (c : ℕ) → pop_back (s ++ (c ∷ [])) ≡ some s
unfolding pop_back
pop_back-snoc [] c = refl
pop_back-snoc (a ∷ []) c = refl
pop_back-snoc (a ∷ b ∷ s) c = ground (arith, pop_back-snoc (b ∷ s) c)

text_at-middle : (front rest : Bytes) (c : ℕ) → text_at (front ++ (c ∷ rest)) (length front) ≡ c
unfolding text_at
text_at-middle [] rest c = refl
text_at-middle (a ∷ front) rest c = text_at-middle front rest c

-- A loop over the part of the text behind `front` copies that part.
copy_loop-middle :
    (size : ℕ) (front part rest : Bytes)
    → length front + length part ≤ size
    → copy_loop size (length part) (front ++ (part ++ rest)) (length front) ≡ some part
unfolding copy_loop
copy_loop-middle size front [] rest h = refl
copy_loop-middle size front (c ∷ part) rest h = ground (
  arith,
  text_at-middle front (part ++ rest) c,
  append_assoc front (c ∷ []) (part ++ rest),
  length-append front (c ∷ []),
  copy_loop-middle size (front ++ (c ∷ [])) part rest (omega (arith, length-append front (c ∷ []))),
)

pub c_str-Without : (s : Bytes) → Without 0 s → c_str s ≡ s
unfolding c_str
c_str-Without [] h = refl
c_str-Without (c ∷ s) h = ground (arith, h.0, c_str-Without s h.1)

read_int-int_bytes : (n : ℕ) → n < 2 ^ 32 → read_int (int_bytes n) ≡ some n
unfolding read_int int_bytes
read_int-int_bytes n h = ground arith

-- What the three loops of `parse` copy out of a request.
copied_parts :
    (n op : ℕ) (line : Bytes)
    → length line ≤ 4088
    → let request = int_bytes n ++ (int_bytes op ++ line) in
      (copy_loop 4096 4 request 0 ≡ some (int_bytes n))
      × (copy_loop 4096 4 request 4 ≡ some (int_bytes op))
      × (copy_loop 4096 (length line) request 8 ≡ some line)
      × (length request ≡ 8 + length line)
unfolding int_bytes
copied_parts n op line h = (
  copy_loop-middle 4096 [] (int_bytes n) (int_bytes op ++ line) (omega arith),
  copy_loop-middle 4096 (int_bytes n) (int_bytes op) line (omega arith),
  rw (append-nil line) at
      (copy_loop-middle 4096 (int_bytes n ++ int_bytes op) line [] (omega arith)),
  omega arith,
)

-- A packed message without its newline is read back: any line without zero bytes, of at most 4088
-- bytes, and any operator of 32 bits. The server and the client's own reader agree on it.
pub parse-pack :
    (line : Bytes) (op : ℕ)
    → Without 0 line
    → length line ≤ 4088
    → op < 2 ^ 32
    → (packed : Bytes) × (request : Bytes) × (pack line op [] ≡ some packed)
      × (pop_back packed ≡ some request)
      × (parse request
          ≡ some (record { msg_len = length line; operator_id = op; msg_content = line }))
      × (client_parse request ≡ parse request)
unfolding pack parse client_parse int_rounds
parse-pack line op clean fits small =
    let (len_ok, op_ok, line_ok, size) = copied_parts (length line) op line fits in
    let request = int_bytes (length line) ++ (int_bytes op ++ line) in
    (
      request ++ (10 ∷ []),
      request,
      ground arith,
      pop_back-snoc request 10,
      ground (
        arith,
        len_ok,
        op_ok,
        line_ok,
        size,
        read_int-int_bytes (length line),
        read_int-int_bytes op small,
        c_str-Without line clean,
      ),
      ground (
        arith,
        len_ok,
        op_ok,
        line_ok,
        size,
        read_int-int_bytes (length line),
        read_int-int_bytes op small,
      ),
    )
