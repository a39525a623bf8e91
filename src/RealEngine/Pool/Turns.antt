-- ===== src/RealEngine/Pool/Turns.antt =====
-- Which numbers the requests of a finished run have drawn.
use radixgates.Base.{
  ℕ, zero, suc, ◌+◌, ◌/◌, ◌%◌, ◌<◌, ◌==◌, ◌≡◌, refl, ap, sym, ◌∙◌, true, ltb, arith, if◌then◌else◌,
  count_if, range_from, List, Str, lit, length,
}
use radixgates.Python.{ok}
use radixgates.Python.Json.{Codec}
use radixgates.RealEngine.{Args, Servers, Sent, worker_base_port, run_policy}
use radixgates.RealEngine.Share.{remainders-share, run_policy-share, count_if-range}
use radixgates.RealEngine.Pool.{Phase, Pool, Reach}
use radixgates.RealEngine.Pool.Count.{total}
use radixgates.RealEngine.Pool.Invariant.{is_finished, tally}
use radixgates.RealEngine.Pool.Moves.{Reach-Inv}
use radixgates.RealEngine.Pool.Progress.{AllFinished, finished_same}

-- whether the request has been sent to worker i of w, by the remainder of its number
abbrev pub sent_to : ℕ → ℕ → Phase → ℕ
sent_to w i (Phase.released n) = if n % w == i then 1 else 0
sent_to w i (Phase.finished n) = if n % w == i then 1 else 0
sent_to w i _ = 0

total-one :
    (k : ℕ) (f : ℕ → Phase) → ((j : ℕ) → j < k → is_finished (f j) ≡ true) → total (λ _. 1) k f ≡ k
unfolding total
total-one zero f all = refl
total-one (suc k) f all = omega (arith, total-one k f (λ j lt. all j (omega arith)))

count_if-all : (k : ℕ) → count_if (λ _. true) (range_from k 0) ≡ k
count_if-all zero = refl
count_if-all (suc k) = omega (arith, count_if-range (λ _. true) k, count_if-all k)

-- the lock loses no increment
finished-counter : {k c n : ℕ} {s : Pool} → Reach k c n s → AllFinished k s → s.mem.counter ≡ k
finished-counter {k} {s} r all =
    sym (count_if-all s.mem.counter)
    ∙ sym ((Reach-Inv r).counted (λ _. true))
    ∙ finished_same (tally (λ _. true)) (λ _. 1) k s.phase (λ n. refl) all
    ∙ total-one k s.phase all

-- Whatever the interleaving of the threads, when all k requests have finished, worker i of w has
-- been sent k / w of them, and one more if i is less than the remainder of k.
pub Reach-share :
    {k c n : ℕ} {s : Pool} (w i : ℕ)
    → Reach k c n s
    → AllFinished k s
    → i < w
    → total (sent_to w i) k s.phase ≡ k / w + (if ltb i (k % w) then 1 else 0)
Reach-share {k} {s} w i r all lt =
    finished_same (sent_to w i) (tally (λ n. n % w == i)) k s.phase (λ n. refl) all
    ∙ (Reach-Inv r).counted (λ n. n % w == i)
    ∙ ap (λ m. count_if (λ n. n % w == i) (range_from m 0)) (finished-counter r all)
    ∙ remainders-share w i k lt

-- Every interleaving of the threads gives each worker as many requests as the run in which the
-- requests draw their numbers one after the other.
pub Reach-run_policy :
    (c : Codec) (args : Args) (prompts : List Str) (gateway_port : ℕ) (serve : Servers)
    (reqs : List (ℕ × Str)) (rows : List Sent) {concurrency n : ℕ} {s : Pool} (i : ℕ)
    → run_policy c (lit "roundrobin") args prompts gateway_port serve reqs ≡ ok rows
    → Reach (length reqs) concurrency n s
    → AllFinished (length reqs) s
    → i < args.workers
    → total (sent_to args.workers i) (length reqs) s.phase
      ≡ count_if (λ (t : Sent). t.port == worker_base_port + i) rows
Reach-run_policy c args prompts gateway_port serve reqs rows i h r all lt =
    Reach-share args.workers i r all lt
    ∙ sym (run_policy-share c args prompts gateway_port serve reqs rows i h lt)
