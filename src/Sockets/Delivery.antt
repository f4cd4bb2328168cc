-- ===== src/Sockets/Delivery.antt =====
-- A request from `pack` of client/clientTest.cc over the socket to `parse` of src/cache/MyTask.cc.
use mathlib.Core.List.{append_assoc}
use simple_search_enginer.Prelude.{
  ℕ, ◌+◌, ◌*◌, ◌^◌, ◌≤◌, ◌<◌, ◌≡◌, refl, ap, ◌∙◌, some, List, [], ◌∷◌, ◌++◌, Bytes, arith, All,
  length, Without, ◌>>=◌,
}
use simple_search_enginer.Sockets.{Arrival, Reading, receive}
use simple_search_enginer.Sockets.Readn.{IsOpen, calls}
use simple_search_enginer.Sockets.Lines.{receive-line}
use simple_search_enginer.Protocol.{
  Message, int_bytes, text_at, array_at, copy_loop, c_str, read_int, int_rounds, parse, pack,
  pop_back,
}
use simple_search_enginer.Protocol.Packing.{parse-pack}

-- The bytes of a request before its newline.
abbrev pub body : Bytes → ℕ → Bytes
body line op = int_bytes (length line) ++ (int_bytes op ++ line)

pub length-body : (line : Bytes) (op : ℕ) → length (body line op) ≡ 8 + length line
unfolding int_bytes
length-body line op = omega arith

pub pack-body :
    (line : Bytes) (op : ℕ)
    → length line ≤ 4088
    → pack line op [] ≡ some (body line op ++ (10 ∷ []))
unfolding pack
pack-body line op fits = ground arith

-- What the server makes of the bytes that arrive: `receive`, `pop_back` and `parse`.
abbrev pub Delivered : Bytes → List Arrival → Message → Bytes → Type 0
Delivered incoming events message rest =
    (r : Reading) × (receive incoming events ≡ some r)
    × ((pop_back r.got >>= parse) ≡ some message)
    × (r.incoming ≡ rest)

-- A request that the client packs reaches `parse` as it was sent, whatever pieces the calls of
-- `recv` see of it and whatever follows it, if none of its bytes, those of the two numbers
-- included, is a newline, its line has no zero byte and at most 4088 bytes, the connection stays
-- open and enough calls find something.
pub pack-Delivered :
    (line rest : Bytes) (op : ℕ) (events : List Arrival)
    → Without 0 line
    → Without 10 (body line op)
    → length line ≤ 4088
    → op < 2 ^ 32
    → All IsOpen events
    → 2 * (9 + length line) ≤ calls events
    → (packed : Bytes) × (pack line op [] ≡ some packed)
      × Delivered
          (packed ++ rest)
          events
          (record { msg_len = length line; operator_id = op; msg_content = line })
          rest
pack-Delivered line rest op events clean whole fits small op_events enough =
    let b = body line op in
    let size = length-body line op in
    let (left, e) =
      receive-line b rest events whole (omega (arith, size)) op_events (omega (arith, size)) in
    let (packed, request, made, popped, parsed, _) = parse-pack line op clean fits small in
    let read : pop_back (b ++ (10 ∷ [])) ≡ some request =
      cc (made, pack-body line op fits, popped) in
    (
      b ++ (10 ∷ []),
      pack-body line op fits,
      (
        record { got = b ++ (10 ∷ []); incoming = rest; events = left },
        ap (λ s. receive s events) (append_assoc b (10 ∷ []) rest) ∙ e,
        rw read parsed,
        refl,
      ),
    )

-- The length 10 of a line is itself a newline in the packed request, so that the server receives
-- nothing of the request but that byte, and parses an empty message with operator 0.
pub pack-ten :
    (line rest : Bytes) (op : ℕ) (events : List Arrival)
    → length line ≡ 10
    → All IsOpen events
    → 2 ≤ calls events
    → (packed : Bytes) × (left : Bytes) × (pack line op [] ≡ some packed)
      × (packed ≡ 10 ∷ left)
      × Delivered
          (packed ++ rest)
          events
          (record { msg_len = 0; operator_id = 0; msg_content = [] })
          (left ++ rest)
unfolding int_bytes pop_back parse copy_loop array_at text_at read_int int_rounds c_str
pack-ten line rest op events ten op_events enough =
    let tail = 0 ∷ 0 ∷ 0 ∷ (int_bytes op ++ line) ++ (10 ∷ []) in
    let (left, e) =
      receive-line [] (tail ++ rest) events tt (omega arith) op_events (omega arith) in
    (
      10 ∷ tail,
      tail,
      pack-body line op (omega (arith, ten))
          ∙ ap (λ n. some ((int_bytes n ++ (int_bytes op ++ line)) ++ (10 ∷ []))) ten,
      refl,
      (record { got = 10 ∷ []; incoming = tail ++ rest; events = left }, e, refl, refl),
    )
