-- ===== src/Sockets/Lines.antt =====
-- What `readline` of src/reactorpool/SocketIO.cc makes of a line that arrives in pieces.
use mathlib.Core.List.{append_assoc}
use simple_search_enginer.Prelude.{
  ℕ, zero, suc, ◌+◌, ◌-◌, ◌*◌, ◌≤◌, ◌<◌, ◌≡◌, ◌≢◌, refl, sym, ap, ◌∙◌, Option, none, some, List, [],
  ◌∷◌, ◌++◌, Bytes, arith, All, length, length-append, length-drop, take, drop, min, Without,
  All-take, dec_lt,
}
use simple_search_enginer.Sockets.{
  Arrival, closed, interrupted, failed, ready, Reading, found, line_end, readline_loop, receive,
}
use simple_search_enginer.Sockets.Readn.{IsOpen, calls, Reads, readn-Reads, length-take-min}

line_end-none : (s : Bytes) → Without 10 s → line_end s ≡ none
unfolding line_end
line_end-none [] h = refl
line_end-none (c ∷ s) h = ground (arith, h.0, line_end-none s h.1)

line_end-line : (l t : Bytes) → Without 10 l → line_end (l ++ (10 ∷ t)) ≡ some (suc (length l))
unfolding line_end
line_end-line [] t h = refl
line_end-line (c ∷ l) t h = ground (arith, h.0, line_end-line l t h.1)

-- A cut inside the line.
take-line : (k : ℕ) (l r : Bytes) → k ≤ length l → take k (l ++ r) ≡ take k l
take-line zero l r h = refl
take-line (suc k) [] r h = absurd (omega arith)
take-line (suc k) (c ∷ l) r h = ap (◌∷◌ c) (take-line k l r (omega arith))

drop-line : (k : ℕ) (l r : Bytes) → k ≤ length l → drop k (l ++ r) ≡ drop k l ++ r
drop-line zero l r h = refl
drop-line (suc k) [] r h = absurd (omega arith)
drop-line (suc k) (c ∷ l) r h = drop-line k l r (omega arith)

take-drop-line : (k : ℕ) (l : Bytes) → take k l ++ drop k l ≡ l
take-drop-line zero l = refl
take-drop-line (suc k) [] = refl
take-drop-line (suc k) (c ∷ l) = ap (◌∷◌ c) (take-drop-line k l)

-- A cut behind the line.
take-past :
    (k : ℕ) (l r : Bytes)
    → length l < k
    → take k (l ++ (10 ∷ r)) ≡ l ++ (10 ∷ take (k - suc (length l)) r)
take-past (suc k) [] r h = ap (λ x. 10 ∷ take x r) (omega arith)
take-past zero l r h = absurd (omega arith)
take-past (suc k) (c ∷ l) r h =
    ap (◌∷◌ c) (take-past k l r (omega arith) ∙ ap (λ x. l ++ (10 ∷ take x r)) (omega arith))

take-suc-line : (l r : Bytes) → take (suc (length l)) (l ++ (10 ∷ r)) ≡ l ++ (10 ∷ [])
take-suc-line [] r = refl
take-suc-line (c ∷ l) r = ap (◌∷◌ c) (take-suc-line l r)

drop-suc-line : (l r : Bytes) → drop (suc (length l)) (l ++ (10 ∷ r)) ≡ r
drop-suc-line [] r = refl
drop-suc-line (c ∷ l) r = drop-suc-line l r

All-drop : (P : ℕ → Type 0) (k : ℕ) (l : Bytes) → All P l → All P (drop k l)
All-drop P zero l h = h
All-drop P (suc k) [] h = tt
All-drop P (suc k) (c ∷ l) h = All-drop P k l h.1

Reading-eq :
    (left : List Arrival) {a b c d : Bytes}
    → a ≡ b
    → c ≡ d
    → Path
        (Option Reading)
        (some (record { got = a; incoming = c; events = left }))
        (some (record { got = b; incoming = d; events = left }))
Reading-eq left p q = λ i. some (record { got = p i; incoming = q i; events = left })

-- The line and what is left to read.
abbrev pub LineRead : Bytes → Bytes → Option Reading → Type 0
LineRead line rest out =
    (left : List Arrival) × (out
      ≡ some (record { got = line ++ (10 ∷ []); incoming = rest; events = left }))

-- One more piece of the line, then the loop.
module _ (fuel size left : ℕ) (before : Bytes) (n : ℕ) (events rs : List Arrival) where
  readline-cut :
      (incoming : Bytes)
      → 1 ≤ length incoming
      → line_end (found n (suc left) incoming) ≡ none
      → Reads (length (found n (suc left) incoming)) incoming events rs
      → readline_loop (suc fuel) size (suc left) before incoming (ready n ∷ events)
        ≡ readline_loop fuel size
            (suc left - length (found n (suc left) incoming))
            (before ++ found n (suc left) incoming)
            (drop (length (found n (suc left) incoming)) incoming)
            rs
  unfolding readline_loop
  readline-cut [] some_left e r = absurd (omega arith)
  readline-cut (b ∷ s) some_left e r = rw (readline_loop, e, r.result) refl

  readline-end :
      (incoming : Bytes)
      → 1 ≤ length incoming
      → (sz : ℕ) → line_end (found n (suc left) incoming) ≡ some sz
      → Reads sz incoming events rs
      → readline_loop (suc fuel) size (suc left) before incoming (ready n ∷ events)
        ≡ some (record {
          got = before ++ take sz (found n (suc left) incoming);
          incoming = drop sz incoming;
          events = rs;
        })
  unfolding readline_loop
  readline-end [] some_left sz e r = absurd (omega arith)
  readline-end (b ∷ s) some_left sz e r = rw (readline_loop, e, r.result) refl

module _ (line rest : Bytes) (w : Without 10 line) (n left : ℕ) where
  found-within :
      min (suc n) (suc left) ≤ length line
      → found n (suc left) (line ++ (10 ∷ rest)) ≡ take (min (suc n) (suc left)) line
  unfolding found
  found-within h = take-line (min (suc n) (suc left)) line (10 ∷ rest) h

  found-past :
      length line < min (suc n) (suc left)
      → found n (suc left) (line ++ (10 ∷ rest))
        ≡ line ++ (10 ∷ take (min (suc n) (suc left) - suc (length line)) rest)
  unfolding found
  found-past h = take-past (min (suc n) (suc left)) line rest h

-- The loop of `readline` on a line that fits, whatever pieces the calls see.
pub readline-line :
    (fuel size left : ℕ) (before line rest : Bytes) (events : List Arrival)
    → Without 10 line
    → length line < left
    → All IsOpen events
    → 2 * suc (length line) ≤ calls events
    → length events < fuel
    → LineRead
        (before ++ line)
        rest
        (readline_loop fuel size left before (line ++ (10 ∷ rest)) events)
unfolding readline_loop
readline-line zero size left before line rest events w fits op enough fuelled = absurd (omega arith)
readline-line (suc fuel) size zero before line rest events w fits op enough fuelled =
    absurd (omega arith)
readline-line (suc fuel) size (suc left) before line rest [] w fits op enough fuelled =
    absurd (omega arith)
readline-line (suc fuel) size (suc left) before line rest (closed ∷ events) w fits op enough
      fuelled =
    absurd op.0
readline-line (suc fuel) size (suc left) before line rest (failed ∷ events) w fits op enough
      fuelled =
    absurd op.0
readline-line (suc fuel) size (suc left) before line rest (interrupted ∷ events) w fits op enough
      fuelled =
    readline-line fuel size (suc left) before line rest events w fits op.1 enough (omega arith)
readline-line (suc fuel) size (suc left) before line rest (ready n ∷ events) w fits op enough
      fuelled =
    let s = line ++ (10 ∷ rest) in
    let k = min (suc n) (suc left) in
    let long : length s ≡ length line + suc (length rest) = length-append line (10 ∷ rest) in
    elim (dec_lt (length line) k) [
      | Dec.yes past ↦
          let e = found-past line rest w n left past in
          let (rs, r) = readn-Reads (suc (length line)) s events (omega arith) op.1 (omega arith) in
          let tail = take (k - suc (length line)) rest in
          (
            rs,
            readline-end fuel size left before n events rs s (omega arith) (suc (length line))
                  (ap line_end e ∙ line_end-line line tail w) r
                ∙ Reading-eq rs
                    (ap (λ x. before ++ take (suc (length line)) x) e
                      ∙ ap (before ++◌) (take-suc-line line tail)
                      ∙ sym (append_assoc before line (10 ∷ [])))
                    (drop-suc-line line rest),
          )
      | Dec.no within ↦
          let e = found-within line rest w n left (omega arith) in
          let m = length (found n (suc left) s) in
          let em : m ≡ k = omega (arith, ap length e, length-take-min k line) in
          let (rs, r) = readn-Reads m s events (omega arith) op.1 (omega arith) in
          let step =
            readline-cut fuel size left before n events rs s (omega arith)
              (ap line_end e ∙ line_end-none (take k line) (All-take (λ c. c ≢ 10) k line w)) r in
          let next =
            readline-line fuel size (suc left - m) (before ++ take k line) (drop k line) rest rs
              (All-drop (λ c. c ≢ 10) k line w) (omega (arith, length-drop k line)) r.opened
              (omega (arith, length-drop k line, r.spent)) (omega (arith, r.shorter)) in
          let there : drop m s ≡ drop k line ++ (10 ∷ rest) =
            ap (λ x. drop x s) em ∙ drop-line k line (10 ∷ rest) (omega arith) in
          let whole : (before ++ take k line) ++ drop k line ≡ before ++ line =
            append_assoc before (take k line) (drop k line)
            ∙ ap (before ++◌) (take-drop-line k line) in
          (
            next.0,
            step
                ∙ (λ i. readline_loop fuel size (suc left - m) (before ++ e i) (there i) rs)
                ∙ next.1
                ∙ Reading-eq next.0 (ap (◌++ (10 ∷ [])) whole) refl,
          )
    ]

-- A message that holds no newline of its own and ends with one, up to 65535 bytes in all, is
-- received whole, without a byte of the next message, however the network cuts it, while the
-- connection is open, if enough calls of `recv` find something.
pub receive-line :
    (line rest : Bytes) (events : List Arrival)
    → Without 10 line
    → length line < 65535
    → All IsOpen events
    → 2 * suc (length line) ≤ calls events
    → LineRead line rest (receive (line ++ (10 ∷ rest)) events)
unfolding receive
receive-line line rest events w fits op enough =
    readline-line (suc (length events)) 65535 65535 [] line rest events w fits op enough
      (omega arith)
