-- ===== src/RealEngine/Counters.antt =====
-- `prefill_counters` of benchmarks/real_engine/run_real.py, and the tokens that each worker has
-- evaluated in a run.
pub mod Laws
use radixgates.Base.{
  ℕ, ◌+◌, List, [], ◌∷◌, map, range_from, Option, none, some, Bool, true, false, Str, lit,
  starts_with, splitlines, is_space, cons_head, if◌then◌else◌,
}
use radixgates.Base.Int.{ℤ, ◌-ℤ◌}
use radixgates.Python.{Result, ok, ◌>>=◌, or_raise, index_error, value_error, stop_iteration}
use radixgates.RealEngine.{worker_base_port}

abbrev begins_word : Str → Bool
begins_word [] = false
begins_word (c ∷ s) = if is_space c then false else true

-- `line.split()`
unfoldable pub split : Str → List Str
split [] = []
split (c ∷ s) =
    let rest = split s in
    if is_space c then rest else if begins_word s then cons_head c rest else (c ∷ []) ∷ rest

-- `l[-1]`
abbrev pub last_item : {A : Type 0} → List A → Option A
last_item [] = none
last_item (x ∷ []) = some x
last_item (x ∷ y ∷ l) = last_item (y ∷ l)

-- `next(x for x in l if p(x))`
abbrev pub next_with : {A : Type 0} → (A → Bool) → List A → Option A
next_with p [] = none
next_with p (x ∷ l) = let rest = next_with p l in if p x then some x else rest

abbrev pub counter_name : Str
counter_name = lit "llamacpp:prompt_tokens_total"

-- What `float` makes of a text. The counters are whole numbers.
abbrev pub Floats : Type 0
Floats = Str → Option ℤ

-- the counter in the metrics of a worker
unfoldable pub counter_in : Floats → Str → Result ℤ
unfolding splitlines split
counter_in floats text = do
  line ← or_raise (next_with (λ l. starts_with l counter_name) (splitlines text)) stop_iteration
  value ← or_raise (last_item (split line)) index_error
  or_raise (floats value) value_error

-- the counters of the workers from the i-th on, of which `metrics` gives what they answer
unfoldable pub counters_of : Floats → (ℕ → Result Str) → List ℕ → Result (List ℤ)
unfolding counter_in
counters_of floats metrics [] = ok []
counters_of floats metrics (i ∷ l) = do
  text ← metrics (worker_base_port + i)
  n ← counter_in floats text
  rest ← counters_of floats metrics l
  ok (n ∷ rest)

unfoldable pub prefill_counters : Floats → (ℕ → Result Str) → ℕ → Result (List ℤ)
unfolding counters_of
prefill_counters floats metrics workers = counters_of floats metrics (range_from workers 0)

-- `s["share"]`
unfoldable pub worker_share : List ℤ → List ℤ → List ℤ
worker_share (b ∷ before) (a ∷ after) = (a -ℤ b) ∷ worker_share before after
worker_share before after = []
