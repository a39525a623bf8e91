-- ===== src/Demos/Gateway.antt =====
-- The checks of the gateway's /health that the demos make before they run: `check_gateway` of
-- examples/pd_demo.py and of the other demos, and `check_mode` of examples/streaming_demo.py.
pub mod Laws
use radixgates.Base.{Bool, true, false, Str, lit, str_eq, if◌then◌else◌}
use radixgates.Python.{Result, ok, raise, ◌>>=◌, or_raise, except, json_error, exit}
use radixgates.Python.Json.{Json, str, Codec, get}
use radixgates.Throughput.{Reply, lost, reply}

-- `requests.get(...).json().get("mode", "unknown")`; the status is not looked at
unfoldable pub read_mode : Codec → Reply → Result Json
unfolding get
read_mode c (lost e) = raise e
read_mode c (reply status body) = do
  health ← or_raise (c.loads body) json_error
  get health (lit "mode") (str (lit "unknown"))

-- `mode == "direct"`
abbrev pub is_direct : Json → Bool
is_direct (str s) = str_eq s (lit "direct")
is_direct _ = false

-- The check of examples/pd_demo.py, which any other mode than "direct" ends too. `sys.exit(1)`
-- raises `exit`, which is no `Exception`.
unfoldable pub check_direct : Codec → Reply → Result (Unit {0})
unfolding read_mode
check_direct c r =
    except (read_mode c r >>= λ mode. if is_direct mode then ok tt else raise exit)
      (λ _. raise exit)

-- The same check where the gateway's mode is only printed.
unfoldable pub check_gateway : Codec → Reply → Result Json
unfolding read_mode
check_gateway c r = except (read_mode c r) (λ _. raise exit)
