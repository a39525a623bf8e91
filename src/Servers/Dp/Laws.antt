-- ===== src/Servers/Dp/Laws.antt =====
-- Which nodes the check of the data-parallel deployment counts.
use radixgates.Base.{
  ℕ, ◌==◌, ◌≡◌, refl, ap, ◌∙◌, List, [], ◌∷◌, Str, lit, Option, none, some, Bool, true, false, ◌&&◌,
  count_if, All, Option-cases, inl, inr,
}
use radixgates.Base.Int.{pos}
use radixgates.Python.{Result, ok, ◌>>=◌, or_raise, except, json_error}
use radixgates.Python.Json.{
  Json, Fields, null, bool, int, float, str, arr, obj, Codec, get, find_field,
}
use radixgates.Throughput.{Reply, lost, reply}
use radixgates.Throughput.Laws.{IsCalm}
use radixgates.Servers.Dp.{Node, describe, probe, check_all_nodes}

-- Whether the decoded body is an object.
abbrev pub is_object : Option Json → Bool
is_object (some (obj fs)) = true
is_object _ = false

abbrev pub informs : Codec → Reply → Bool
informs c (lost e) = false
informs c (reply status body) = is_object (c.loads body)

-- Whether /health has status 200 and /get_model_info gives an object, whatever its status.
abbrev pub is_up : Codec → Reply → Reply → Bool
is_up c (lost e) info = false
is_up c (reply status body) info = status == 200 && informs c info

-- what a turn of the loop counts
abbrev outcome : Result Bool → Result Bool
outcome m = except m (λ _. ok false)

get-obj : (fs : Fields) (k : Str) (d : Json) → (v : Json) × (get (obj fs) k d ≡ ok v)
unfolding get
get-obj fs k d = elim (Option-cases (find_field k fs)) [
  | inl e ↦ (d, rw (e, get))
  | inr (v, e) ↦ (v, rw (e, get))
]

bind-ok :
    {A B : Type 0} {m : Result A} {a : A} {r : Result B} (f : A → Result B)
    → m ≡ ok a
    → f a ≡ r
    → (m >>= f) ≡ r
bind-ok f e h = ap (λ n. n >>= f) e ∙ h

describe-obj : (fs : Fields) → describe (obj fs) ≡ ok tt
unfolding describe
describe-obj fs =
    let (m, em) = get-obj fs (lit "model") (str (lit "?")) in
    let (p, ep) = get-obj fs (lit "model_path") m in
    let (t, et) = get-obj fs (lit "tensor_parallel_size") (int (pos 1)) in
    let (u, eu) = get-obj fs (lit "tp_size") t in
    bind-ok _ em (bind-ok _ ep (bind-ok _ et (bind-ok _ eu refl)))

and_false : (b : Bool) → false ≡ (b && false)
and_false true = refl
and_false false = refl

and_true : (b : Bool) → b ≡ (b && true)
and_true true = refl
and_true false = refl

-- the rest of a turn, from the decoded body of /get_model_info
tail_of : ℕ → Option Json → Result Bool
unfolding describe
tail_of status o =
    outcome (or_raise o json_error >>= λ info. describe info >>= λ _. ok (status == 200))

tail_of-is_object :
    (status : ℕ) (o : Option Json) → tail_of status o ≡ ok (status == 200 && is_object o)
unfolding tail_of get
tail_of-is_object status none = ap ok (and_false (status == 200))
tail_of-is_object status (some null) = ap ok (and_false (status == 200))
tail_of-is_object status (some (bool b)) = ap ok (and_false (status == 200))
tail_of-is_object status (some (int n)) = ap ok (and_false (status == 200))
tail_of-is_object status (some (float m e)) = ap ok (and_false (status == 200))
tail_of-is_object status (some (str s)) = ap ok (and_false (status == 200))
tail_of-is_object status (some (arr vs)) = ap ok (and_false (status == 200))
tail_of-is_object status (some (obj fs)) =
    ap (λ m. outcome (m >>= λ _. ok (status == 200))) (describe-obj fs)
    ∙ ap ok (and_true (status == 200))

probe-is_up :
    (c : Codec) (h i : Reply)
    → IsCalm h
    → IsCalm i
    → outcome (probe c (record { health = h; model_info = i })) ≡ ok (is_up c h i)
unfolding probe
probe-is_up c (lost e) i ch ci = rw ch
probe-is_up c (reply status body) (lost e) ch ci = rw ci (ap ok (and_false (status == 200)))
probe-is_up c (reply status body) (reply s b) ch ci =
    unfold tail_of in tail_of-is_object status (c.loads b)

-- Unless a request is interrupted, the check counts the nodes whose /health has status 200 and
-- whose /get_model_info gives an object: an exception at one node does not stop it.
check_all_nodes-count :
    (c : Codec) (nodes : List Node)
    → All (λ (n : Node). IsCalm n.health × IsCalm n.model_info) nodes
    → check_all_nodes c nodes ≡ ok (count_if (λ (n : Node). is_up c n.health n.model_info) nodes)
unfolding check_all_nodes
check_all_nodes-count c [] h = refl
check_all_nodes-count c (n ∷ nodes) h =
    bind-ok _ (probe-is_up c n.health n.model_info h.0.0 h.0.1)
      (bind-ok _ (check_all_nodes-count c nodes h.1) refl)
