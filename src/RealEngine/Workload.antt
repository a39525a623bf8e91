-- ===== src/RealEngine/Workload.antt =====
-- The prompts and the requests of benchmarks/real_engine/run_real.py, in any order that the
-- shuffling gives.
pub mod Share
pub mod Distinct
use radixgates.Base.{ℕ, zero, suc, List, [], ◌∷◌, ◌++◌, ◌+◌, ◌*◌, ◌%◌, map, range_from, Str, lit}
use radixgates.Base.Decimal.{show_ℕ}

-- `separator.join(parts)`
abbrev pub join : Str → List Str → Str
join separator [] = []
join separator (s ∷ []) = s
join separator (s ∷ t ∷ parts) = s ++ (separator ++ join separator (t ∷ parts))

-- `['INTEGER', 'TEXT', 'REAL', 'DATE'][c % 4]`, from the remainder
abbrev pub column_type : ℕ → Str
column_type zero = lit "INTEGER"
column_type (suc zero) = lit "TEXT"
column_type (suc (suc zero)) = lit "REAL"
column_type (suc (suc (suc n))) = lit "DATE"

abbrev pub column : ℕ → ℕ → ℕ → Str
column pid t c =
    lit "c"
    ++ show_ℕ pid
    ++ lit "_"
    ++ show_ℕ t
    ++ lit "_"
    ++ show_ℕ c
    ++ lit " "
    ++ column_type (c % 4)

abbrev pub table : ℕ → ℕ → Str
table pid t =
    lit "CREATE TABLE department"
    ++ show_ℕ pid
    ++ lit "_table"
    ++ show_ℕ t
    ++ lit " ("
    ++ join (lit ", ") (map (column pid t) (range_from 8 0))
    ++ lit ");"

-- 10 is the code point of "\n".
unfoldable pub schema_prompt : ℕ → Str
schema_prompt pid =
    lit
      "You translate questions into SQL for the following schema. Answer with one SQL statement only."
    ++ (10 ∷ join (10 ∷ []) (map (table pid) (range_from 12 0)))

-- The index of a prompt, and a question.
abbrev pub Query : Type 0
Query = ℕ × Str

-- `random.Random(seed)`: what its i-th call of `randrange` returns for a bound, and what `shuffle`
-- makes of the requests.
pub record Random : Type 0 where
  pub randrange : ℕ → ℕ → ℕ
  pub shuffle : List Query → List Query

-- the n-th request, which takes three numbers at random
abbrev pub request_of : Random → ℕ → ℕ → Query
request_of r prompts n = (
  n % prompts,
  lit "How many rows does department"
      ++ show_ℕ (n % prompts)
      ++ lit "_table"
      ++ show_ℕ (r.randrange (3 * n) 12)
      ++ lit " have where column c"
      ++ show_ℕ (n % prompts)
      ++ lit "_0_"
      ++ show_ℕ (r.randrange (3 * n + 1) 8)
      ++ lit " is greater than "
      ++ show_ℕ (r.randrange (3 * n + 2) 1000)
      ++ lit "? (query "
      ++ show_ℕ n
      ++ lit ")",
)

-- `args.prompts` and `args.per_prompt` are the numbers.
unfoldable pub workload : Random → ℕ → ℕ → List Str × List Query
unfolding schema_prompt
workload r prompts per_prompt = (
  map schema_prompt (range_from prompts 0),
  r.shuffle (map (request_of r prompts) (range_from (prompts * per_prompt) 0)),
)
