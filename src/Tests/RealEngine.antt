-- ===== src/Tests/RealEngine.antt =====
-- A round-robin run of three requests over two workers, and experiments that break off.
use radixgates.Base.{
  ℕ, zero, suc, List, [], ◌∷◌, some, Bool, true, false, ◌≡◌, refl, ◌↔◌, ◌⊎◌, arith,
}
use radixgates.Base.{◌+◌, ◌/◌, ◌%◌, ◌==◌, ltb, count_if, if◌then◌else◌, Str, lit}
use radixgates.Base.Int.{pos, negsuc, ◌-ℤ◌, ◌*ℤ◌}
use radixgates.Python.{ok, raise, os_error, interrupt, runtime_error}
use radixgates.Python.Json.{Json, int, float, obj, field, end, Codec}
use radixgates.RealEngine.{
  Args, lost, reply, Servers, Row, failed, served, Sent, worker_base_port, run_policy, as_time,
}
use radixgates.RealEngine.Share.{run_policy-share}
use radixgates.RealEngine.Rows.{Rows, RowFor, no_reply, refused, answered, timed, run_policy_total}
use radixgates.RealEngine.Fleet.{Host, late, experiment, start}
use radixgates.RealEngine.Fleet.Laws.{fails, removed, experiment-running, experiment-worktree}

abbrev usage : Json
usage = obj (
    field (lit "usage")
      (obj (
        field (lit "prompt_tokens") (int (pos 600)) (
          field (lit "prompt_tokens_details")
            (obj (field (lit "cached_tokens") (int (pos 512)) end)) end)))
      (field (lit "timings") (obj (field (lit "prompt_ms") (float (pos 125) (pos 0)) end)) end))

-- every body is that answer
abbrev codec : Codec
codec = record { decode = λ s. some s; loads = λ s. some usage }

abbrev serve : Servers
serve i port path b = record { sent = pos 0; received = pos 9; result = reply 200 [] (lit "{}") }

abbrev args : Args
args = record { workers = 2; max_tokens = 8; concurrency = 6 }

abbrev prompts : List Str
prompts = lit "schema" ∷ []

abbrev reqs : List (ℕ × Str)
reqs = (0, lit "a") ∷ (0, lit "b") ∷ (0, lit "c") ∷ []

abbrev row : Str → Row
row node = served (pos 9) node (int (pos 600)) (int (pos 512)) (pos 125000000)

abbrev sent : ℕ → Str → Sent
sent port node = record { port = port; path = lit "/v1/chat/completions"; row = row node }

abbrev rows : List Sent
rows =
    sent 9101 (lit "127.0.0.1:9101")
    ∷ sent 9102 (lit "127.0.0.1:9102")
    ∷ sent 9101 (lit "127.0.0.1:9101")
    ∷ []

run : run_policy codec (lit "roundrobin") args prompts 19090 serve reqs ≡ ok rows
unfolding run_policy ◌-ℤ◌ ◌*ℤ◌
run = refl

run_policy-share_example :
    count_if (λ (s : Sent). s.port == worker_base_port + 0) rows
    ≡ 3 / 2 + (if ltb 0 (3 % 2) then 1 else 0)
run_policy-share_example =
    run_policy-share codec args prompts 19090 serve reqs rows 0 run (omega arith)

-- The first request is lost, the second is refused, and the others are answered.
abbrev mixed : Servers
mixed zero port path b = record { sent = pos 0; received = pos 9; result = lost os_error }
mixed (suc zero) port path b = record {
  sent = pos 0;
  received = pos 9;
  result = reply 503 [] (lit "busy");
}
mixed (suc (suc i)) port path b = serve i port path b

mixed_rows :
    (j port : ℕ) (path : Str) (b : Json) → (r : Row) × RowFor codec port (mixed j port path b) r
unfolding ◌-ℤ◌ as_time
mixed_rows zero port path b = (failed (pos 9) (negsuc 0), no_reply refl refl)
mixed_rows (suc zero) port path b = (failed (pos 9) (pos 503), refused refl refl)
mixed_rows (suc (suc i)) port path b =
    (_, answered refl refl refl refl refl refl (timed refl refl refl))

run_policy_total_example :
    (l : List Sent) × (run_policy codec (lit "upgraded") args prompts 19090 mixed reqs ≡ ok l)
    × Rows codec args prompts mixed 0 reqs l
run_policy_total_example =
    run_policy_total codec (lit "upgraded") args prompts 19090 mixed reqs mixed_rows (omega arith)
      (omega arith) (omega arith, (omega arith, (omega arith, tt)))

-- The second worker never becomes healthy, and the original gateway does not build if the flag
-- says so.
abbrev host : Bool → Host
host builds = record {
  spawns = λ p. ok tt;
  healthy = λ p. ok (not_second p);
  waits = λ p. late;
  builds_upgraded = ok tt;
  adds_worktree = ok tt;
  builds_original = if builds then ok tt else raise runtime_error;
  warms = ok tt;
  measures = λ n. raise interrupt;
  removes_worktree = ok true;
  removes_tmp = true;
}
  where
    not_second : ℕ → Bool
    not_second p = if p == 1 then false else true

experiment-running_example : (experiment (host true) 2 (true ∷ false ∷ []) start).1.running ≡ []
experiment-running_example = experiment-running (host true) 2 (true ∷ false ∷ [])

experiment-worktree_example : ((experiment (host false) 2 (true ∷ []) start).1.worktree ≡ true) ↔ (
    (ok (tt {0}) ≡ ok tt)
    × (ok (tt {0}) ≡ ok tt)
    × ((fails (raise runtime_error) ≡ true) ⊎ (removed (ok true) ≡ false)))
experiment-worktree_example = experiment-worktree (host false) 2 (true ∷ [])
