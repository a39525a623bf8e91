-- ===== src/RealEngine/Pool.antt =====
-- The threads of `run_policy` in benchmarks/real_engine/run_real.py under the round-robin policy,
-- interleaved in any order: the thread pool, the lock and the counter that it guards.
pub mod Count
pub mod Invariant
pub mod Moves
pub mod Progress
pub mod Turns
use radixgates.Base.{ℕ, zero, suc, ◌+◌, ◌-◌, ◌<◌, ◌==◌, ◌≡◌, Option, none, some, if◌then◌else◌}

-- How far the call of `one` for a request has come. `took n` has read `n = rr_counter[0]`, and
-- `adding n x` has read x for `rr_counter[0] += 1`; `released n` has left the `with` and sends the
-- request to port `WORKER_BASE_PORT + n % args.workers`.
pub data Phase : Type 0 where
  queued ready locked : Phase
  took : ℕ → Phase
  adding : ℕ → ℕ → Phase
  added : ℕ → Phase
  released : ℕ → Phase
  finished : ℕ → Phase

-- What the threads share: how many requests the executor has started, how many of them run, the
-- counter, and the request whose thread holds the lock.
pub record Shared : Type 0 where
  pub started : ℕ
  pub running : ℕ
  pub counter : ℕ
  pub holder : Option ℕ

-- A move of the thread of request i, of k requests with `concurrency` threads. The executor starts
-- the requests in their order; `rr_lock` is free or its thread waits.
pub data Move (k concurrency i : ℕ) (m : Shared) : Phase → Shared → Phase → Type 0 where
  start :
      m.started ≡ i
      → m.running < concurrency
      → Move k concurrency i m Phase.queued
          (record m { started = suc m.started; running = suc m.running })
          Phase.ready
  acquire :
      m.holder ≡ none
      → Move k concurrency i m Phase.ready (record m { holder = some i }) Phase.locked
  read : Move k concurrency i m Phase.locked m (Phase.took m.counter)
  read_again : {n : ℕ} → Move k concurrency i m (Phase.took n) m (Phase.adding n m.counter)
  write :
      {n x : ℕ}
      → Move k concurrency i m (Phase.adding n x) (record m { counter = suc x }) (Phase.added n)
  release :
      {n : ℕ}
      → Move k concurrency i m (Phase.added n) (record m { holder = none }) (Phase.released n)
  finish :
      {n : ℕ}
      → Move k concurrency i m
          (Phase.released n)
          (record m { running = m.running - 1 })
          (Phase.finished n)

-- the phases with another one at an index
abbrev pub update : (ℕ → Phase) → ℕ → Phase → ℕ → Phase
update f i p j = if i == j then p else f j

pub record Pool : Type 0 where
  pub mem : Shared
  pub phase : ℕ → Phase

-- One of the threads moves.
pub data Step (k concurrency : ℕ) (s : Pool) : Pool → Type 0 where
  pick :
      (i : ℕ) {m : Shared} {p : Phase}
      → i < k
      → Move k concurrency i s.mem (s.phase i) m p
      → Step k concurrency s (record { mem = m; phase = update s.phase i p })

abbrev pub init : Pool
init = record {
  mem = record { started = 0; running = 0; counter = 0; holder = none };
  phase = λ _. Phase.queued;
}

-- what some number of steps can make of the start of a run
pub data Reach (k concurrency : ℕ) : ℕ → Pool → Type 0 where
  here : Reach k concurrency zero init
  next :
      {steps : ℕ} {s t : Pool}
      → Reach k concurrency steps s
      → Step k concurrency s t
      → Reach k concurrency (suc steps) t
