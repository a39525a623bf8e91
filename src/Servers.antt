-- ===== src/Servers.antt =====
-- The checks of the SGLang servers: `check_tp_active` of examples/tp_demo.py, `check_ep_active` and
-- `check_alltoall_in_logs` of examples/ep_demo.py and `check_all_nodes` of examples/dp_demo.py. The
-- model path, which is only printed, is left out.
pub mod Search
pub mod Tp
pub mod Ep
pub mod Dp
pub mod Scan
use radixgates.Base.{
  ℕ, List, [], ◌∷◌, Str, lit, Option, none, some, Bool, true, false, ◌==◌, if◌then◌else◌,
}
use radixgates.Python.{Exc, Result, ok, raise, ◌>>=◌, or_raise, json_error, is_exception}
use radixgates.Python.Json.{Json, null, bool, int, float, str, arr, obj, Codec}
use radixgates.Throughput.{Reply, lost, reply}

-- What a log file is to the check: `none` if there is none, or what opening and reading its first
-- 65536 characters comes to.
abbrev pub Files : Type 0
Files = Str → Option (Result Str)

-- `v is None`, which a JSON null is too
abbrev pub is_none : Json → Bool
is_none null = true
is_none _ = false

-- `r.json()` of a reply with status 200; `none` is another status
unfoldable pub json_of : Codec → Reply → Result (Option Json)
json_of c (lost e) = raise e
json_of c (reply status body) =
    if status == 200 then or_raise (c.loads body) json_error >>= (λ d. ok (some d)) else ok none

-- the first of two values that is not None
abbrev pub or_null : Json → Json → Json
or_null null w = w
or_null v w = v
