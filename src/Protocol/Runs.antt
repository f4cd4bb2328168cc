-- ===== src/Protocol/Runs.antt =====
-- Tests of the messages of client/clientTest.cc and src/cache/MyTask.cc.
use simple_search_enginer.Prelude.{ℕ, ◌≡◌, ◌≢◌, some, [], ◌∷◌, arith, Bytes, ◌>>=◌}
use simple_search_enginer.Protocol.{pack, parse, client_parse, pop_back}
use simple_search_enginer.Protocol.Packing
use simple_search_enginer.Protocol.Dispatch
use simple_search_enginer.Protocol.Dispatch.{Services, Reply, process}

-- The line "ab".
abbrev line_ab : Bytes
line_ab = 97 ∷ 98 ∷ []

parse-pack_example :
    (packed : Bytes) × (request : Bytes) × (pack line_ab 2 [] ≡ some packed)
    × (pop_back packed ≡ some request)
    × (parse request ≡ some (record { msg_len = 2; operator_id = 2; msg_content = line_ab }))
    × (client_parse request ≡ parse request)
parse-pack_example = Packing.parse-pack line_ab 2 (omega arith) (omega arith) (omega arith)

-- Services that count the calls and give the line back.
abbrev echo : Services
echo = record {
  State = ℕ;
  recommend = λ n line thread. some (1, line ∷ []);
  search_pages = λ n line. some (2, line);
  rand_dict = λ n. some (3, []);
  solitaire_keys = λ n line. some (4, line ∷ line ∷ []);
}

process-pack_example :
    (packed : Bytes) × (pack line_ab 7 [] ≡ some packed)
    × (◌≡◌ {A = ℕ} 7 1
        → process echo 0 0 packed
          ≡ (echo.recommend 0 line_ab 0 >>= λ r. some (r.0, Reply.suggestions line_ab r.1)))
    × (◌≡◌ {A = ℕ} 7 2
        → process echo 0 0 packed
          ≡ (echo.search_pages 0 line_ab >>= λ r. some (r.0, Reply.pages r.1)))
    × (◌≡◌ {A = ℕ} 7 3
        → process echo 0 0 packed ≡ (echo.rand_dict 0 >>= λ r. some (r.0, Reply.keys r.1)))
    × (◌≢◌ {A = ℕ} 7 1
        → ◌≢◌ {A = ℕ} 7 2
        → ◌≢◌ {A = ℕ} 7 3
        → process echo 0 0 packed
          ≡ (echo.solitaire_keys 0 line_ab >>= λ r. some (r.0, Reply.keys r.1)))
process-pack_example =
    Dispatch.process-pack echo 0 0 line_ab 7 (omega arith) (omega arith) (omega arith)
