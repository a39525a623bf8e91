-- ===== src/RealEngine.antt =====
-- benchmarks/real_engine/run_real.py: requests against llama-server workers, through a gateway or
-- in turn to the workers themselves. Times are in nanoseconds.
pub mod Summary
pub mod Share
pub mod Rows
pub mod Fleet
pub mod Workload
pub mod Pool
pub mod Wait
pub mod Config
pub mod Counters
pub mod Report
pub mod Main
use radixgates.Base.{ℕ, zero, suc, List, [], ◌∷◌, ◌++◌, Option, none, some, Bool, true, false}
use radixgates.Base.{◌+◌, ◌-◌, ◌*◌, ◌/◌, ◌%◌, ◌==◌, min, map, keep, length, get_elem?, range_from}
use radixgates.Base.{Str, lit, str_eq, if◌then◌else◌, is_empty}
use radixgates.Base.Int.{ℤ, pos, negsuc, ◌+ℤ◌, ◌-ℤ◌, ◌*ℤ◌, ltb_ℤ}
use radixgates.Base.Dict.{Dict, lookup}
use radixgates.Base.Decimal.{show_ℕ, power_of_ten}
use radixgates.Python.{Exc, Result, ok, raise, ◌>>=◌, or_raise, except_os, index_error}
use radixgates.Python.{json_error, type_error, value_error, zero_division_error}
use radixgates.Python.Json.{
  Json, null, bool, int, float, str, arr, obj, nil, cons, end, field, Codec,
}
use radixgates.Python.Json.{by_key, get}
use radixgates.Stats.{sorted}

abbrev pub worker_base_port : ℕ
worker_base_port = 9101

-- the command line, as far as a run uses it
pub record Args : Type 0 where
  pub workers : ℕ
  pub max_tokens : ℕ
  pub concurrency : ℕ

pub data HttpReply : Type 0 where
  lost : Exc → HttpReply
  reply : ℕ → Dict Str → Str → HttpReply

-- `post_json` with the readings of the clock before and after it
pub record HttpExchange : Type 0 where
  pub sent : ℤ
  pub received : ℤ
  pub result : HttpReply

-- What the server at a port does with the i-th request, given its path and body.
abbrev pub Servers : Type 0
Servers = ℕ → ℕ → Str → Json → HttpExchange

-- A row of the results: a failure with its status, or an answer with the node that gave it, the
-- values of its numbers of tokens, whatever they are, and the time of its prefill.
pub data Row : Type 0 where
  failed : ℤ → ℤ → Row
  served : ℤ → Str → Json → Json → ℤ → Row

-- the address of a request, and its row
pub record Sent : Type 0 where
  pub port : ℕ
  pub path : Str
  pub row : Row

abbrev pub is_roundrobin : Str → Bool
is_roundrobin policy = str_eq policy (lit "roundrobin")

-- `WORKER_BASE_PORT + n % args.workers`
abbrev pub turn : ℕ → ℕ → Result ℕ
turn zero n = raise zero_division_error
turn (suc w) n = ok (worker_base_port + n % suc w)

-- `n` is the value of the counter that the lock gives to the request.
unfoldable pub target : Str → Args → ℕ → ℕ → Result (ℕ × Str)
target policy args gateway_port n =
    if is_roundrobin policy
    then turn args.workers n >>= (λ port. ok (port, lit "/v1/chat/completions"))
    else ok (gateway_port, lit "/v1/chat")

-- the counter behind the lock, which other policies leave alone
abbrev pub next_counter : Str → ℕ → ℕ
next_counter policy n = if is_roundrobin policy then suc n else n

unfoldable pub body : Args → Str → Str → Json
body args prompt question = obj (
    field (lit "model") (str (lit "default")) (
      field (lit "max_tokens") (int (pos args.max_tokens)) (
        field (lit "temperature") (int (pos 0)) (
          field (lit "stream") (bool false) (
            field (lit "messages")
              (arr (
                cons
                  (obj (
                    field (lit "role") (str (lit "system"))
                      (field (lit "content") (str prompt) end)))
                  (cons
                    (obj (
                      field (lit "role") (str (lit "user"))
                        (field (lit "content") (str question) end)))
                    nil)))
              end)))))

-- Milliseconds in nanoseconds, a fraction of which is dropped. A value that is no number is refused
-- here, and by Python when the times are sorted or printed.
unfoldable pub as_time : Json → Result ℤ
as_time (bool b) = ok (if b then pos 1000000 else pos 0)
as_time (int n) = ok (1000000 *ℤ n)
as_time (float m (pos e)) = ok (power_of_ten (e + 6) *ℤ m)
as_time (float (pos m) (negsuc e)) = ok (pos (m * 1000000 / power_of_ten (suc e)))
as_time (float (negsuc m) (negsuc e)) = ok (pos 0 -ℤ pos (suc m * 1000000 / power_of_ten (suc e)))
as_time v = raise type_error

-- `headers.get("X-Gateway-Node") or f"127.0.0.1:{port}"`
unfoldable pub node_of : Dict Str → ℕ → Str
unfolding show_ℕ
node_of headers port =
    let local = lit "127.0.0.1:" ++ show_ℕ port in
    elim (lookup (lit "X-Gateway-Node") headers) [
      | none ↦ local
      | some s ↦ if is_empty s then local else s
    ]

-- the row of an answer with status 200
unfoldable pub read_completion : Codec → ℕ → ℤ → Dict Str → Str → Result Row
unfolding by_key get as_time node_of
read_completion c port lat headers content = do
  d ← or_raise (c.loads content) json_error
  tm ← get d (lit "timings") (obj end)
  usage ← by_key d (lit "usage")
  prompt ← by_key usage (lit "prompt_tokens")
  details ← by_key usage (lit "prompt_tokens_details")
  cached ← by_key details (lit "cached_tokens")
  prefill_ms ← get tm (lit "prompt_ms") (float (pos 0) (pos 0))
  t ← as_time prefill_ms
  ok (served lat (node_of headers port) prompt cached t)

unfoldable pub read_reply : Codec → ℕ → HttpExchange → HttpReply → Result Row
unfolding read_completion
read_reply c port x (lost e) = raise e
read_reply c port x (reply status headers content) =
    if status == 200
    then read_completion c port (x.received -ℤ x.sent) headers content
    else ok (failed (x.received -ℤ x.sent) (pos status))

-- the `except OSError` of `one`
unfoldable pub row_of : Codec → ℕ → HttpExchange → Result Row
unfolding read_reply
row_of c port x =
    except_os (read_reply c port x x.result) (ok (failed (x.received -ℤ x.sent) (negsuc 0)))

-- `one(item)`, for the i-th request, which finds `n` in the counter
unfoldable pub one : Codec → Str → Args → List Str → ℕ → Servers → ℕ → ℕ → ℕ × Str → Result Sent
unfolding target body row_of
one c policy args prompts gateway_port serve i n (pid, question) = do
  prompt ← or_raise (get_elem? prompts pid) index_error
  (port, path) ← target policy args gateway_port n
  row ← row_of c port (serve i port path (body args prompt question))
  ok (record { port = port; path = path; row = row })

-- The requests in the order in which they take the lock, from the i-th on.
unfoldable pub run_from :
    Codec → Str → Args → List Str → ℕ → Servers → ℕ → ℕ → List (ℕ × Str) → Result (List Sent)
unfolding one
run_from c policy args prompts gateway_port serve i n [] = ok []
run_from c policy args prompts gateway_port serve i n (item ∷ reqs) = do
  s ← one c policy args prompts gateway_port serve i n item
  rest ← run_from c policy args prompts gateway_port serve (suc i) (next_counter policy n) reqs
  ok (s ∷ rest)

-- an executor without threads is refused
unfoldable pub run_policy :
    Codec → Str → Args → List Str → ℕ → Servers → List (ℕ × Str) → Result (List Sent)
unfolding run_from
run_policy c policy args prompts gateway_port serve reqs =
    if args.concurrency == 0
    then raise value_error
    else run_from c policy args prompts gateway_port serve 0 0 reqs
