-- ===== src/Sockets.antt =====
-- `SocketIO` of src/reactorpool/SocketIO.cc, and `receive` of src/reactorpool/TcpConnection.cc. What
-- the calls of `recv` and `send` come to is a list of events; `none` means that a call blocks.
pub mod Readn
pub mod Lines
pub mod Sending
pub mod Delivery
mod Runs
use mathlib.Core.Option
use simple_search_enginer.Prelude.{
  ℕ, zero, suc, ◌+◌, ◌-◌, ◌≡◌, Bool, true, false, Option, none, some, List, [], ◌∷◌, ◌++◌, Bytes,
  ltb, ◌==◌, if◌then◌else◌, ◌>>=◌, length, take, drop, min, replicate,
}

-- `recv` returns 0, or -1 with `EINTR`, or -1 with another error, or finds at most `suc n` bytes.
pub data Arrival : Type 0 where
  closed : Arrival
  interrupted : Arrival
  failed : Arrival
  ready : ℕ → Arrival

-- What a call got, what the peer has sent and was not read, and the events to come.
pub record Reading : Type 0 where
  pub got : Bytes
  pub incoming : Bytes
  pub events : List Arrival

-- The bytes that `recv` finds. None are left if the peer has closed.
unfoldable pub found : ℕ → ℕ → Bytes → Bytes
found n left incoming = take (min (suc n) left) incoming

-- The loop of `readn`, with the bytes left.
unfoldable pub readn : ℕ → Bytes → List Arrival → Option Reading
readn zero incoming events = some (record { got = []; incoming = incoming; events = events })
readn (suc left) incoming [] = none
readn (suc left) incoming (closed ∷ events) =
    some (record { got = []; incoming = incoming; events = events })
readn (suc left) incoming (interrupted ∷ events) = readn (suc left) incoming events
readn (suc left) incoming (failed ∷ events) =
    some (record { got = []; incoming = incoming; events = events })
readn (suc left) [] (ready n ∷ events) = some (record { got = []; incoming = []; events = events })
readn (suc left) (b ∷ incoming) (ready n ∷ events) =
    let here = found n (suc left) (b ∷ incoming) in
    readn (suc left - length here) (drop (length here) (b ∷ incoming)) events >>= λ r.
    some (record r { got = here ++ r.got })

-- The place after the first newline.
unfoldable pub line_end : Bytes → Option ℕ
line_end [] = none
line_end (c ∷ s) = let rest = line_end s >>= (λ n. some (suc n)) in if c == 10 then some 1 else rest

-- The buffer after `maxSz - 1` is returned without a newline: zeros follow what was read.
unfoldable pub padded : ℕ → Bytes → Bytes
padded size s = take size (s ++ replicate size 0)

-- The loop of `readline`: `left`, the bytes before `bufptr`, and fuel. The string that `receive`
-- makes of the buffer is `got`.
unfoldable pub readline_loop : ℕ → ℕ → ℕ → Bytes → Bytes → List Arrival → Option Reading
readline_loop fuel size zero before incoming events =
    some (record { got = padded size before; incoming = incoming; events = events })
readline_loop zero size (suc left) before incoming events = none
readline_loop (suc fuel) size (suc left) before incoming [] = none
readline_loop (suc fuel) size (suc left) before incoming (closed ∷ events) =
    some (record { got = padded size before; incoming = incoming; events = events })
readline_loop (suc fuel) size (suc left) before incoming (interrupted ∷ events) =
    readline_loop fuel size (suc left) before incoming events
readline_loop (suc fuel) size (suc left) before incoming (failed ∷ events) =
    some (record { got = padded size before; incoming = incoming; events = events })
readline_loop (suc fuel) size (suc left) before [] (ready n ∷ events) =
    some (record { got = padded size before; incoming = []; events = events })
readline_loop (suc fuel) size (suc left) before (b ∷ incoming) (ready n ∷ events) =
    let peeked = found n (suc left) (b ∷ incoming) in
    elim (line_end peeked) [
      | Option.some sz ↦
          readn sz (b ∷ incoming) events >>= λ r. some (record r { got = before ++ take sz peeked })
      | Option.none ↦ readn (length peeked) (b ∷ incoming) events >>= λ r.
          readline_loop fuel size (suc left - length peeked) (before ++ peeked) r.incoming r.events
    ]

-- `receive`: a buffer of 65536 bytes.
unfoldable pub receive : Bytes → List Arrival → Option Reading
receive incoming events = readline_loop (suc (length events)) 65535 65535 [] incoming events

-- `send` returns -1, or takes `suc n` bytes at most.
pub data Departure : Type 0 where
  refused : Departure
  taken : ℕ → Departure

-- The loop of `writen`: each call is given `size` bytes from `bufptr` on, `memory` being what
-- stands there, and `left` may fall below zero. The bytes that were sent are returned.
unfoldable pub writen_loop : ℕ → ℕ → Bytes → List Departure → Option Bytes
writen_loop size zero memory events = some []
writen_loop size (suc left) memory [] = none
writen_loop size (suc left) memory (refused ∷ events) = writen_loop size (suc left) memory events
writen_loop size (suc left) memory (taken n ∷ events) =
    let ret = min (suc n) size in
    writen_loop size (suc left - ret) (drop ret memory) events >>= λ rest.
    some (take ret memory ++ rest)

-- `send` of a message, with what follows it in memory.
unfoldable pub send : Bytes → Bytes → List Departure → Option Bytes
send msg after events = writen_loop (length msg) (length msg) (msg ++ after) events
