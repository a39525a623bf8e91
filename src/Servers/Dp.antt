-- ===== src/Servers/Dp.antt =====
-- `check_all_nodes` of examples/dp_demo.py.
pub mod Laws
use radixgates.Base.{
  ℕ, zero, suc, ◌+◌, ◌==◌, ◌≤◌, ◌≡◌, refl, ap, ◌∙◌, List, [], ◌∷◌, Str, lit, Option, none, some,
  Bool, true, false, ◌&&◌, length, count_if, All, if◌then◌else◌, arith, Bool-cases, inl, inr,
}
use radixgates.Base.Int.{pos}
use radixgates.Python.{
  Exc, Result, ok, raise, ◌>>=◌, ◌>>◌, or_raise, except, json_error, is_exception,
}
use radixgates.Python.Json.{Json, null, int, str, Codec, get}
use radixgates.Python.Catch.{Catchable, >>=-Catchable, or_raise-Catchable, get-Catchable}
use radixgates.Throughput.{Reply, lost, reply}
use radixgates.Throughput.Laws.{IsCalm}

-- The replies of a node to /health and /get_model_info.
pub record Node : Type 0 where
  pub health : Reply
  pub model_info : Reply

abbrev pub status_of : Reply → Result ℕ
status_of (lost e) = raise e
status_of (reply status body) = ok status

-- `.json()`, whatever the status
abbrev pub body_of : Codec → Reply → Result Json
body_of c (lost e) = raise e
body_of c (reply status body) = or_raise (c.loads body) json_error

-- The model and the size are only printed, but reading them may raise.
unfoldable pub describe : Json → Result (Unit {0})
unfolding get
describe info = do
  m ← get info (lit "model") (str (lit "?"))
  get info (lit "model_path") m
  t ← get info (lit "tensor_parallel_size") (int (pos 1))
  get info (lit "tp_size") t
  ok tt

-- the `try` of one turn: whether the node counts
unfoldable pub probe : Codec → Node → Result Bool
unfolding describe
probe c node = do
  status ← status_of node.health
  info ← body_of c node.model_info
  describe info
  ok (status == 200)

unfoldable pub check_all_nodes : Codec → List Node → Result ℕ
unfolding probe
check_all_nodes c [] = ok 0
check_all_nodes c (node ∷ nodes) = do
  is_healthy ← except (probe c node) (λ _. ok false)
  healthy ← check_all_nodes c nodes
  ok ((if is_healthy then 1 else 0) + healthy)
