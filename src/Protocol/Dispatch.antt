-- ===== src/Protocol/Dispatch.antt =====
-- `MyTask::process` of src/cache/MyTask.cc. The services behind it are an interface, which the
-- recommender and the searcher fill; a reply is what the JSON library is handed.
use simple_search_enginer.Prelude.{
  ℕ, ◌^◌, ◌≤◌, ◌<◌, ◌≡◌, ap, ◌≢◌, Option, some, List, [], arith, Bytes, length, Without,
  if◌then◌else◌, ◌==◌, ◌>>=◌,
}
use simple_search_enginer.Protocol.{pack, parse, pop_back}
use simple_search_enginer.Protocol.Packing.{parse-pack}

-- What is sent back. An empty list leaves its field out of the JSON object.
pub data Reply : Type 0 where
  suggestions : Bytes → List Bytes → Reply
  pages : Bytes → Reply
  keys : List Bytes → Reply

-- `KeyRecommander` and `WebPageSearcher` as the task calls them, with what they all change.
pub record Services : Type 1 where
  pub State : Type 0
  pub recommend : State → Bytes → ℕ → Option (State × List Bytes)
  pub search_pages : State → Bytes → Option (State × Bytes)
  pub rand_dict : State → Option (State × List Bytes)
  pub solitaire_keys : State → Bytes → Option (State × List Bytes)

pub data Operation : Type 0 where
  recommending searching random solitaire : Operation

-- The chain of conditions on `operatorId`, with its value afterwards. The last condition is the
-- assignment `operatorId = 4`.
unfoldable pub choose : ℕ → Operation × ℕ
choose op =
    if op == 1
    then (recommending, op)
    else if op == 2
    then (searching, op)
    else if op == 3
    then (random, op)
    else (solitaire, 4)

module _ (services : Services) where
  open services use {State, recommend, search_pages, rand_dict, solitaire_keys}

  unfoldable pub serve : State → ℕ → Bytes → Operation → Option (State × Reply)
  serve s thread content recommending = do
    (s', res) ← recommend s content thread
    some (s', suggestions content res)
  serve s thread content searching = do
    (s', response) ← search_pages s content
    some (s', pages response)
  serve s thread content random = do (s', res) ← rand_dict s; some (s', keys res)
  serve s thread content solitaire = do (s', res) ← solitaire_keys s content; some (s', keys res)

  -- `process` for the bytes that the connection received.
  unfoldable pub process : State → ℕ → Bytes → Option (State × Reply)
  process s thread received = do
    request ← pop_back received
    m ← parse request
    serve s thread m.msg_content (choose m.operator_id).0

  process_lem :
      (s : State) (thread : ℕ) (packed request line : Bytes) (op : ℕ) (o : Operation)
      → pop_back packed ≡ some request
      → parse request
        ≡ some (record { msg_len = length line; operator_id = op; msg_content = line })
      → (choose op).0 ≡ o
      → process s thread packed ≡ serve s thread line o
  unfolding process
  process_lem s thread packed request line op o popped parsed chosen =
      rw (process, popped, parsed) (ap (serve s thread line) chosen)

  -- A line without zero bytes, of at most 4088 bytes, packed by the client with an operator of 32
  -- bits, is served by its operator, with the line as it was typed; any operator but 1, 2 and 3
  -- is served as the fourth.
  pub process-pack :
      (s : State) (thread : ℕ) (line : Bytes) (op : ℕ)
      → Without 0 line
      → length line ≤ 4088
      → op < 2 ^ 32
      → (packed : Bytes) × (pack line op [] ≡ some packed)
        × (op ≡ 1
            → process s thread packed
              ≡ (recommend s line thread >>= λ r. some (r.0, suggestions line r.1)))
        × (op ≡ 2 → process s thread packed ≡ (search_pages s line >>= λ r. some (r.0, pages r.1)))
        × (op ≡ 3 → process s thread packed ≡ (rand_dict s >>= λ r. some (r.0, keys r.1)))
        × (op ≢ 1
            → op ≢ 2
            → op ≢ 3
            → process s thread packed ≡ (solitaire_keys s line >>= λ r. some (r.0, keys r.1)))
  unfolding serve choose
  process-pack s thread line op clean fits small =
      let (packed, request, packs, popped, parsed, _) = parse-pack line op clean fits small in
      let ran = process_lem s thread packed request line op in
      (
        packed,
        packs,
        λ e. ran recommending popped parsed (ground arith),
        λ e. ran searching popped parsed (ground arith),
        λ e. ran random popped parsed (ground arith),
        λ e f g. ran solitaire popped parsed (ground arith),
      )
