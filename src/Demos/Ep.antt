-- ===== src/Demos/Ep.antt =====
-- examples/ep_demo.py: expert parallelism.
use radixgates.Base.{ℕ, List, [], ◌∷◌, Str, lit}
use radixgates.Base.Int.{ℤ}
use radixgates.Base.Dict.{Dict}
use radixgates.Python.{Result}
use radixgates.Python.Json.{Json, nil, Codec}
use radixgates.Stats.{Frac}
use radixgates.Ttft
use radixgates.Ttft.{Stream}
use radixgates.Throughput
use radixgates.Throughput.{Report}

-- `PROMPTS`
abbrev pub prompts : List (Str × Str)
prompts =
    (lit "short", lit "Say hi.")
    ∷ (lit "medium", lit "Explain what Mixture of Experts is in 3 sentences.")
    ∷ (
      lit "long",
      lit
          "The following is a detailed technical document about Mixture of Experts (MoE) architecture in large language models. In MoE models, each transformer layer contains multiple expert FFN networks. A router network (gating function) selects which K experts process each token. Only the selected experts are activated, keeping compute proportional to K, not N. Expert Parallelism (EP) distributes these experts across multiple GPUs. When a token is routed to an expert on a different GPU, it must be transferred via All-to-All collective communication. This All-to-All has two phases: dispatch (send tokens to expert GPUs) and gather (return computed results to originating GPUs). Load imbalance occurs when some experts receive many more tokens than others, causing some GPUs to be idle while others are saturated. Based on this context, explain the trade-off between EP degree and All-to-All overhead.",
    )
    ∷ []

unfoldable pub measure_ttft : Codec → ℤ → Stream → Result ℤ
measure_ttft = Ttft.measure_ttft

unfoldable pub benchmark_ttft : Codec → Ttft.Service → Result (Dict Frac)
benchmark_ttft c serve = Ttft.benchmark_ttft c serve prompts

-- the body that each of the 20 requests has
unfoldable pub payload : ℕ → Json
payload i =
    Throughput.chat_payload
      (Throughput.message "user" "Explain what Mixture of Experts is in 3 sentences." nil)

-- The requests complete in the order given, which is one of `range(20)`.
unfoldable pub benchmark_throughput : Codec → Throughput.Service → ℤ → List ℕ → Result Report
unfolding payload
benchmark_throughput c serve total order = Throughput.throughput c serve payload total order
