-- ===== src/Servers/Ep.antt =====
-- `check_ep_active` of examples/ep_demo.py.
pub mod Laws
use radixgates.Base.{
  ℕ, suc, ◌*◌, List, [], ◌∷◌, Str, lit, Option, none, some, Bool, true, false, not, ◌&&◌, ◌||◌, ltb,
  leb, is_empty, if◌then◌else◌,
}
use radixgates.Base.Int.{ℤ, pos, negsuc, ltb_ℤ}
use radixgates.Base.Decimal.{power_of_ten}
use radixgates.Python.{Exc, Result, ok, raise, ◌>>=◌, except, is_exception, type_error}
use radixgates.Python.Json.{Json, null, bool, int, float, str, arr, obj, Codec, get, truthy}
use radixgates.Throughput.{Reply}
use radixgates.Servers.{Files, is_none, json_of}
use radixgates.Servers.Search.{tp_pattern, ep_pattern}

-- `ep_size_found` and `tp_size_found`, with null for None
pub record Sizes : Type 0 where
  pub ep : Json
  pub tp : Json

abbrev pub nothing : Sizes
nothing = record { ep = null; tp = null }

-- the size from `ep_size_raw`, which may be a flag; other values than these leave None
abbrev pub ep_of_raw : Json → Json → Json
ep_of_raw (bool b) tp = if b then tp else int (pos 1)
ep_of_raw (int n) tp = int n
ep_of_raw _ tp = null

abbrev pub args_sizes : Option Json → Result Sizes
args_sizes none = ok nothing
args_sizes (some args) = do
  tp_size ← get args (lit "tp_size") null
  tp ← get args (lit "tensor_parallel_size") tp_size
  enabled ← get args (lit "enable_expert_parallel") null
  ep_size ← get args (lit "ep_size") enabled
  raw ← get args (lit "expert_parallel_size") ep_size
  ok (record { ep = ep_of_raw raw tp; tp = tp })

unfoldable pub sizes_of_args : Codec → Reply → Result Sizes
unfolding json_of get
sizes_of_args c r = except (json_of c r >>= args_sizes) (λ _. ok nothing)

-- a size that is not known yet, from a search
abbrev pub fill : Json → Option ℕ → Json
fill null (some n) = int (pos n)
fill v o = v

-- One log file: what is known after it. A missing file and an exception are passed over.
abbrev pub sizes_in : Option (Result Str) → Sizes → Result Sizes
sizes_in none s = ok s
sizes_in (some (ok content)) s =
    ok (record { ep = fill s.ep (ep_pattern content); tp = fill s.tp (tp_pattern content) })
sizes_in (some (raise e)) s = if is_exception e then ok s else raise e

-- whether the loop goes on behind a file: it stops once the expert size is known, if the file was
-- read
abbrev pub was_read : Option (Result Str) → Bool
was_read (some (ok content)) = true
was_read _ = false

unfoldable pub sizes_of_logs : Files → List Str → Sizes → Result Sizes
sizes_of_logs files [] s = ok s
sizes_of_logs files (log_path ∷ candidates) s =
    let file = if is_empty log_path then none else files log_path in
    sizes_in file s >>= λ s'.
    let rest = sizes_of_logs files candidates s' in
    if was_read file && not (is_none s'.ep) then ok s' else rest

-- whether /get_model_info gives a number of experts that Python counts as true
abbrev pub info_experts : Option Json → Result Bool
info_experts none = ok false
info_experts (some info) = do
  routed ← get info (lit "num_routed_experts") null
  n_routed ← get info (lit "n_routed_experts") routed
  num_experts ← get info (lit "num_experts") n_routed
  ok (truthy num_experts)

unfoldable pub moe_of_info : Codec → Reply → Result Bool
unfolding json_of get
moe_of_info c r = except (json_of c r >>= info_experts) (λ _. ok false)

-- `v > 1`, which a text, a list, a dict and None do not allow
unfoldable pub above_one : Json → Result Bool
above_one (int n) = ok (ltb_ℤ (pos 1) n)
above_one (bool b) = ok false
above_one (float (pos m) (pos e)) = ok (ltb 1 (m * power_of_ten e))
above_one (float (pos m) (negsuc e)) = ok (ltb (power_of_ten (suc e)) m)
above_one (float (negsuc m) e) = ok false
above_one v = raise type_error

-- the sentence at the end
pub data Verdict : Type 0 where
  confirmed size_only moe_only unconfirmed : Verdict

abbrev pub verdict_of : Bool → Bool → Verdict
verdict_of true true = confirmed
verdict_of true false = size_only
verdict_of false true = moe_only
verdict_of false false = unconfirmed

pub record EpReport : Type 0 where
  pub ep_confirmed : Bool
  pub sizes : Sizes
  pub verdict : Verdict

abbrev pub log_candidates : Str → List Str
log_candidates sglang_log = sglang_log ∷ lit "/tmp/sglang_ep.log" ∷ lit "/tmp/sglang.log" ∷ []

-- the sizes from the first two sources; the log files are read if one is not known
unfoldable pub known_sizes : Codec → Reply → Files → Str → Result Sizes
unfolding sizes_of_args sizes_of_logs
known_sizes c args files sglang_log = do
  s ← sizes_of_args c args
  if is_none s.ep || is_none s.tp then sizes_of_logs files (log_candidates sglang_log) s else ok s

abbrev pub confirms : Json → Result Bool
confirms ep = if is_none ep then ok false else above_one ep

-- the comparison stands behind the `try` blocks, so that its exception leaves the function
unfoldable pub report_of : Sizes → Bool → Result EpReport
unfolding above_one
report_of s moe = do
  ep_confirmed ← confirms s.ep
  ok (record { ep_confirmed = ep_confirmed; sizes = s; verdict = verdict_of ep_confirmed moe })

unfoldable pub check_ep_active : Codec → Reply → Files → Str → Reply → Result EpReport
unfolding known_sizes moe_of_info report_of
check_ep_active c args files sglang_log info = do
  s ← known_sizes c args files sglang_log
  moe ← moe_of_info c info
  report_of s moe
