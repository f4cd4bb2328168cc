-- ===== src/Sockets/Runs.antt =====
-- Tests of the model of src/reactorpool/SocketIO.cc, and its theorems at small messages.
use simple_search_enginer.Prelude.{
  ℕ, zero, suc, All, ◌≤◌, ◌≡◌, refl, some, List, [], ◌∷◌, ◌++◌, Bytes, arith, take,
}
use simple_search_enginer.Protocol.{int_bytes, pack}
use simple_search_enginer.Sockets.{
  Arrival, closed, interrupted, ready, refused, taken, found, line_end, padded, readn,
  readline_loop, receive, writen_loop, send,
}
use simple_search_enginer.Sockets.Readn.{IsOpen}
use simple_search_enginer.Sockets.Lines
use simple_search_enginer.Sockets.Lines.{LineRead}
use simple_search_enginer.Sockets.Sending
use simple_search_enginer.Sockets.Delivery
use simple_search_enginer.Sockets.Delivery.{Delivered}

-- Calls that find one byte, two bytes, and so on, with an interruption between them.
abbrev pieces : List Arrival
pieces = ready 0 ∷ ready 0 ∷ interrupted ∷ ready 1 ∷ ready 9 ∷ ready 0 ∷ ready 2 ∷ ready 0 ∷ []

-- "ab"
abbrev line_ab : Bytes
line_ab = 97 ∷ 98 ∷ []

-- "abcdefghij"
abbrev ten_bytes : Bytes
ten_bytes = 97 ∷ 98 ∷ 99 ∷ 100 ∷ 101 ∷ 102 ∷ 103 ∷ 104 ∷ 105 ∷ 106 ∷ []

-- Calls that find one byte each.
abbrev one_by_one : ℕ → List Arrival
one_by_one zero = []
one_by_one (suc n) = ready 0 ∷ one_by_one n

one_by_one-opened : (n : ℕ) → All IsOpen (one_by_one n)
one_by_one-opened zero = tt
one_by_one-opened (suc n) = (tt, one_by_one-opened n)

receive-line_example : LineRead line_ab (99 ∷ []) (receive (97 ∷ 98 ∷ 10 ∷ 99 ∷ []) pieces)
receive-line_example =
    Lines.receive-line line_ab (99 ∷ []) pieces (omega arith) (omega arith)
      (tt, (tt, (tt, (tt, (tt, (tt, (tt, (tt, tt)))))))) (omega arith)

-- A connection that is closed in the middle of a line yields what came, padded with zeros.
readline_loop-closed :
    readline_loop 3 4 4 [] line_ab (ready 1 ∷ ready 1 ∷ closed ∷ [])
    ≡ some (record { got = 97 ∷ 98 ∷ 0 ∷ 0 ∷ []; incoming = []; events = [] })
unfolding readline_loop readn line_end found padded
readline_loop-closed = refl

send-whole_example :
    (extra : ℕ) × (send line_ab (120 ∷ 121 ∷ []) (taken 0 ∷ refused ∷ taken 5 ∷ [])
      ≡ some (line_ab ++ take extra (120 ∷ 121 ∷ [])))
    × (extra ≤ 1)
send-whole_example =
    Sending.send-whole line_ab (120 ∷ 121 ∷ []) (taken 0 ∷ refused ∷ taken 5 ∷ []) (omega arith)

-- After a first part, a byte from behind the message is sent.
send-after :
    send line_ab (120 ∷ 121 ∷ []) (taken 0 ∷ refused ∷ taken 5 ∷ []) ≡ some (97 ∷ 98 ∷ 120 ∷ [])
unfolding send writen_loop
send-after = refl

pack-Delivered_example :
    (packed : Bytes) × (pack line_ab 2 [] ≡ some packed)
    × Delivered
        (packed ++ (7 ∷ []))
        (one_by_one 22)
        (record { msg_len = 2; operator_id = 2; msg_content = line_ab })
        (7 ∷ [])
unfolding int_bytes
pack-Delivered_example =
    Delivery.pack-Delivered line_ab (7 ∷ []) 2 (one_by_one 22) (omega arith) (omega arith)
      (omega arith) (omega arith) (one_by_one-opened 22) (omega arith)

pack-ten_example :
    (packed : Bytes) × (left : Bytes) × (pack ten_bytes 1 [] ≡ some packed)
    × (packed ≡ 10 ∷ left)
    × Delivered
        (packed ++ [])
        (one_by_one 2)
        (record { msg_len = 0; operator_id = 0; msg_content = [] })
        (left ++ [])
pack-ten_example =
    Delivery.pack-ten ten_bytes [] 1 (one_by_one 2) refl (one_by_one-opened 2) (omega arith)
