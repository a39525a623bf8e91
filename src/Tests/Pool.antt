-- ===== src/Tests/Pool.antt =====
-- Two requests on two threads: the second one starts while the first one waits for its number.
use radixgates.Base.{
  ℕ, zero, suc, ◌+◌, ◌<◌, ◌==◌, ◌≡◌, ◌⊎◌, refl, arith, List, [], ◌∷◌, lit, count_if,
}
use radixgates.Base.{Str, length}
use radixgates.Base.Int.{pos, negsuc, ◌-ℤ◌}
use radixgates.Python.{ok, os_error}
use radixgates.RealEngine.{Args, Servers, Sent, failed, lost, worker_base_port, run_policy}
use radixgates.Tests.Samples.{codec}
use radixgates.RealEngine.Pool.{
  Phase, Pool, Step, pick, Reach, here, next, Move, Shared, start, acquire, read, read_again, write,
  release, finish, init,
}
use radixgates.RealEngine.Pool.Count.{total}
use radixgates.RealEngine.Pool.Progress.{AllFinished, Reach-progress}
use radixgates.RealEngine.Pool.Turns.{sent_to, Reach-run_policy}

-- a schedule and the state that it comes to
record Run (k c n : ℕ) : Type 0 where
  last : Pool
  reach : Reach k c n last

abbrev move :
    {k c n : ℕ} (r : Run k c n) (i : ℕ) {m : Shared} {p : Phase}
    → i < k
    → Move k c i r.last.mem (r.last.phase i) m p
    → Run k c (suc n)
move r i lt mv = record { last = _; reach = next r.reach (pick i lt mv) }

abbrev initial : Run 2 2 0
initial = record { last = init; reach = here }

-- Request 1 has drawn its number, 0, and waits for its increment; request 0 waits for the lock.
abbrev begun : Run 2 2 5
begun =
    let a = move initial 0 (omega arith) (start refl (omega arith)) in
    let b = move a 1 (omega arith) (start refl (omega arith)) in
    let d = move b 1 (omega arith) (acquire refl) in
    let e = move d 1 (omega arith) read in move e 1 (omega arith) read_again

abbrev ended : Run 2 2 14
ended =
    let a = move begun 1 (omega arith) write in
    let b = move a 1 (omega arith) release in
    let d = move b 0 (omega arith) (acquire refl) in
    let e = move d 0 (omega arith) read in
    let f = move e 1 (omega arith) finish in
    let g = move f 0 (omega arith) read_again in
    let h = move g 0 (omega arith) write in
    let i = move h 0 (omega arith) release in move i 0 (omega arith) finish

drawn : (ended.last.phase 0 ≡ Phase.finished 1) × (ended.last.phase 1 ≡ Phase.finished 0)
drawn = (refl, refl)

ended-AllFinished : AllFinished 2 ended.last
ended-AllFinished zero lt = refl
ended-AllFinished (suc zero) lt = refl
ended-AllFinished (suc (suc j)) lt = absurd (omega arith)

Reach-progress_example : AllFinished 2 begun.last ⊎ ((t : Pool) × Step 2 2 begun.last t)
Reach-progress_example = Reach-progress (omega arith) begun.reach

abbrev args : Args
args = record { workers = 2; max_tokens = 8; concurrency = 6 }

-- no worker answers
abbrev serve : Servers
serve i port path b = record { sent = pos 0; received = pos 9; result = lost os_error }

abbrev prompts : List Str
prompts = lit "schema" ∷ []

abbrev reqs : List (ℕ × Str)
reqs = (0, lit "a") ∷ (0, lit "b") ∷ []

abbrev lost_at : ℕ → Sent
lost_at port = record {
  port = port;
  path = lit "/v1/chat/completions";
  row = failed (pos 9) (negsuc 0);
}

in_turn :
    run_policy codec (lit "roundrobin") args prompts 19090 serve reqs
    ≡ ok (lost_at 9101 ∷ lost_at 9102 ∷ [])
unfolding run_policy ◌-ℤ◌
in_turn = refl

Reach-run_policy_example :
    total (sent_to args.workers 1) (length reqs) ended.last.phase
    ≡ count_if (λ (t : Sent). t.port == worker_base_port + 1) (lost_at 9101 ∷ lost_at 9102 ∷ [])
Reach-run_policy_example =
    Reach-run_policy codec args prompts 19090 serve reqs (lost_at 9101 ∷ lost_at 9102 ∷ []) 1
      in_turn ended.reach ended-AllFinished (omega arith)
