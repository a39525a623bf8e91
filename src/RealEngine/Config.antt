-- ===== src/RealEngine/Config.antt =====
-- The gateway's configuration file in benchmarks/real_engine/run_real.py, `routing_for` and
-- `Fleet.config`, and the requests that prepare the workers for a run.
pub mod Laws
use radixgates.Base.{
  ℕ, zero, suc, ◌+◌, List, [], ◌∷◌, ◌++◌, map, range_from, Option, none, some, Str, lit, str_eq,
  if◌then◌else◌, Bool, true, false,
}
use radixgates.Base.Int.{pos, negsuc}
use radixgates.Base.Decimal.{show_ℕ}
use radixgates.Python.{Result, ok, raise, ◌>>◌}
use radixgates.Python.Json.{Json, int, float, str, arr, obj, Items, nil, cons, Fields, end, field}
use radixgates.RealEngine.{worker_base_port}

abbrev pub gateway_port : ℕ
gateway_port = 19090

-- the command line, as far as the configuration and the run use it
pub record Options : Type 0 where
  pub workers : ℕ
  pub slots : ℕ
  pub concurrency : ℕ
  pub affinity_wait : Str

abbrev pub wait_option : Str → Fields → Fields
wait_option wait fs = field (lit "affinity_wait") (str wait) fs

abbrev pub place_option : Fields → Fields
place_option fs = field (lit "placement_size") (int (pos 1024)) fs

-- The options of a policy; None without any.
unfoldable pub routing_for : Str → Options → Option Fields
routing_for policy args =
    if str_eq policy (lit "upgraded_wait")
    then some (wait_option args.affinity_wait end)
    else if str_eq policy (lit "upgraded_place")
    then some (place_option end)
    else if str_eq policy (lit "upgraded_place_wait")
    then some (place_option (wait_option args.affinity_wait end))
    else none

-- `{**fs, k: v}`: a key that is there keeps its place
abbrev pub set_field : Str → Json → Fields → Fields
set_field k v end = field k v end
set_field k v (field j u fs) =
    let rest = set_field k v fs in if str_eq k j then field j v fs else field j u rest

-- `{**fs, **gs}`
unfoldable pub merge : Fields → Fields → Fields
merge fs end = fs
merge fs (field k v gs) = merge (set_field k v fs) gs

-- An entry of "sglang_instances".
abbrev pub instance_of : ℕ → ℕ → Json
instance_of slots i = obj (
    field (lit "group") (str (lit "local")) (
      field (lit "host") (str (lit "127.0.0.1")) (
        field (lit "port") (int (pos (worker_base_port + i)))
          (field (lit "max_concurrent") (int (pos slots)) end))))

abbrev pub items : List Json → Items
items [] = nil
items (v ∷ vs) = cons v (items vs)

abbrev pub defaults : Fields
defaults =
    field (lit "bounded_load_factor") (float (pos 125) (negsuc 1))
      (field (lit "affinity_floor") (int (pos 4)) end)

-- the "routing" of the configuration; an empty dict counts as None
unfoldable pub routing_fields : Option Fields → Fields
unfolding merge
routing_fields none = end
routing_fields (some end) = end
routing_fields (some (field k v fs)) =
    field (lit "routing") (obj (merge defaults (field k v fs))) end

-- what `config` writes to gateway.json
unfoldable pub config : Options → Option Fields → Json
unfolding routing_fields
config args routing = obj (
    field (lit "port") (int (pos gateway_port)) (
      field (lit "default_model") (str (lit "default")) (
        field (lit "max_concurrent_per_node") (int (pos args.slots)) (
          field (lit "sglang_instances")
            (arr (items (map (instance_of args.slots) (range_from args.workers 0))))
            (routing_fields routing)))))

-- What a server at a port makes of a POST to a path with a body; `erase_caches` sends none.
abbrev pub Post : Type 0
Post = ℕ → Str → Option Json → Result (Unit {0})

-- `for i in range(n): act(i)`
abbrev pub each : List ℕ → (ℕ → Result (Unit {0})) → Result (Unit {0})
each [] act = ok tt
each (i ∷ l) act = act i >> each l act

unfoldable pub warm_body : Json
warm_body = obj (
    field (lit "model") (str (lit "default")) (
      field (lit "max_tokens") (int (pos 2)) (
        field (lit "messages")
          (arr (
            cons
              (obj (
                field (lit "role") (str (lit "user")) (field (lit "content") (str (lit "hi")) end)))
              nil))
          end)))

unfoldable pub warm_workers : Options → Post → Result (Unit {0})
unfolding warm_body
warm_workers args post =
    each (range_from args.workers 0)
      λ i. post (worker_base_port + i) (lit "/v1/chat/completions") (some warm_body)

abbrev pub erase_path : ℕ → Str
erase_path slot = lit "/slots/" ++ show_ℕ slot ++ lit "?action=erase"

unfoldable pub erase_caches : Options → Post → Result (Unit {0})
erase_caches args post =
    each (range_from args.workers 0)
      λ i. each (range_from args.slots 0) λ slot. post (worker_base_port + i) (erase_path slot) none
