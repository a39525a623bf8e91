-- ===== src/RealEngine/Wait.antt =====
-- `wait_http` of benchmarks/real_engine/run_real.py, which asks a server for its health until it
-- answers or the time is up.
pub mod Laws
use radixgates.Base.{
  ℕ, zero, suc, ◌+◌, ◌*◌, ◌==◌, Bool, true, false, ltb, Option, none, some, if◌then◌else◌,
}
use radixgates.Python.{Exc, Result, ok, raise, except_os}

-- what the i-th request comes to: the status of the answer, or what it raises
abbrev pub Probes : Type 0
Probes = ℕ → Result ℕ

-- The readings of `time.time()` in milliseconds: the first one before the loop, and then one for
-- each test of the loop.
abbrev pub Clock : Type 0
Clock = ℕ → ℕ

abbrev pub is_200 : Result ℕ → Result Bool
is_200 (raise e) = raise e
is_200 (ok status) = ok (status == 200)

-- the `try` of a turn: whether the server has answered with status 200
unfoldable pub probe_once : Result ℕ → Result Bool
probe_once r = except_os (is_200 r) (ok false)

-- what a turn leaves of the loop
abbrev pub after_probe : Result Bool → Option (Result Bool) → Option (Result Bool)
after_probe (raise e) rest = some (raise e)
after_probe (ok true) rest = some (ok true)
after_probe (ok false) rest = rest

-- The loop from its i-th turn on; `none` says that the turns which were granted do not suffice.
unfoldable pub wait_from : ℕ → Clock → Probes → ℕ → ℕ → Option (Result Bool)
unfolding probe_once
wait_from zero clock probes end i = none
wait_from (suc turns) clock probes end i =
    let rest = wait_from turns clock probes end (suc i) in
    if ltb (clock (suc i)) end then after_probe (probe_once (probes i)) rest else some (ok false)

-- `timeout` is in seconds. Between two tests the function sleeps for half a second.
unfoldable pub wait_http : Clock → Probes → ℕ → Option (Result Bool)
unfolding wait_from
wait_http clock probes timeout =
    wait_from (suc (2 * timeout)) clock probes (clock 0 + 1000 * timeout) 0
