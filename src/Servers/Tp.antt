-- ===== src/Servers/Tp.antt =====
-- `check_tp_active` of examples/tp_demo.py.
pub mod Laws
use radixgates.Base.{
  ℕ, List, [], ◌∷◌, Str, lit, Option, none, some, Bool, true, false, is_empty, if◌then◌else◌,
}
use radixgates.Base.Int.{ℤ, pos, ltb_ℤ}
use radixgates.Python.{Exc, Result, ok, raise, ◌>>=◌, except, is_exception}
use radixgates.Python.Json.{Json, null, int, Codec, get}
use radixgates.Throughput.{Reply}
use radixgates.Servers.{Files, is_none, json_of}
use radixgates.Servers.Search.{tp_pattern}

-- The size that /get_server_args gives, or None where it gives none, whatever goes wrong.
abbrev pub args_size : Option Json → Result Json
args_size none = ok null
args_size (some args) = do
  tp_size ← get args (lit "tp_size") null
  get args (lit "tensor_parallel_size") tp_size

unfoldable pub size_of_args : Codec → Reply → Result Json
unfolding json_of get
size_of_args c r = except (json_of c r >>= args_size) (λ _. ok null)

-- the size in one log file; a missing file and an exception are passed over
abbrev pub size_in : Option (Result Str) → Result (Option ℕ)
size_in none = ok none
size_in (some (ok content)) = ok (tp_pattern content)
size_in (some (raise e)) = if is_exception e then ok none else raise e

-- what was found, or else the rest
abbrev pub found_or : Option ℕ → Result Json → Result Json
found_or none rest = rest
found_or (some n) rest = ok (int (pos n))

-- The first log file with a size in it. An empty name, of a variable that is not set, is passed
-- over.
unfoldable pub size_of_logs : Files → List Str → Result Json
size_of_logs files [] = ok null
size_of_logs files (log_path ∷ candidates) =
    let rest = size_of_logs files candidates in
    size_in (if is_empty log_path then none else files log_path) >>= λ found. found_or found rest

-- the size that /get_model_info gives
abbrev pub info_size : Option Json → Result Json
info_size none = ok null
info_size (some info) = do
  size ← get info (lit "tensor_parallel_size") null
  get info (lit "tp_size") size

unfoldable pub size_of_info : Codec → Reply → Result Json
unfolding json_of get
size_of_info c r = except (json_of c r >>= info_size) (λ _. ok null)

-- `isinstance(tp_size_found, int) and tp_size_found > 1`; True is an int, but not above 1
abbrev pub is_parallel : Json → Bool
is_parallel (int n) = ltb_ℤ (pos 1) n
is_parallel _ = false

abbrev pub log_candidates : Str → List Str
log_candidates sglang_log = sglang_log ∷ lit "/tmp/sglang_tp.log" ∷ lit "/tmp/sglang.log" ∷ []

-- the end, from the three sources
abbrev pub conclude : Result Json → Result Json → Result Json → Result (Bool × Json)
conclude args logs info = do
  from_args ← args
  found ← if is_none from_args then logs else ok from_args
  from_info ← info
  let tp_size_found = if is_none found then from_info else found
  ok (is_parallel tp_size_found, tp_size_found)

-- The two requests are made in any case. `sglang_log` is the variable SGLANG_LOG, empty if unset.
unfoldable pub check_tp_active : Codec → Reply → Files → Str → Reply → Result (Bool × Json)
unfolding size_of_args size_of_logs size_of_info
check_tp_active c args files sglang_log info =
    conclude (size_of_args c args) (size_of_logs files (log_candidates sglang_log))
      (size_of_info c info)
