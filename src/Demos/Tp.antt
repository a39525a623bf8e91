-- ===== src/Demos/Tp.antt =====
-- examples/tp_demo.py: tensor parallelism.
use radixgates.Base.{ℕ, List, [], ◌∷◌, Str, lit}
use radixgates.Base.Int.{ℤ}
use radixgates.Base.Dict.{Dict}
use radixgates.Python.{Result}
use radixgates.Python.Json.{Json, nil, Codec}
use radixgates.Stats.{Frac}
use radixgates.Ttft
use radixgates.Ttft.{Stream}
use radixgates.Throughput
use radixgates.Throughput.{Report}

-- `PROMPTS`
abbrev pub prompts : List (Str × Str)
prompts =
    (lit "short", lit "Say hi.")
    ∷ (lit "medium", lit "Explain what Tensor Parallelism is in 3 sentences.")
    ∷ (
      lit "long",
      lit
          "The following is a detailed technical document about transformer architecture. Transformers use self-attention mechanisms to process sequential data. Each attention head computes queries, keys, and values from the input embeddings. The scaled dot-product attention formula is Attention(Q,K,V) = softmax(QK^T/√d_k)V. Multi-head attention allows the model to attend to different representation subspaces. Position encodings are added to preserve sequence order information. Feed-forward networks follow each attention layer with two linear transformations. Layer normalization and residual connections stabilize training. With Tensor Parallelism, attention heads are split across GPUs and FFN columns are partitioned, requiring an All-Reduce after each layer to synchronize activations. Based on this technical context, explain why NVLink is preferred over PCIe for TP.",
    )
    ∷ []

unfoldable pub measure_ttft : Codec → ℤ → Stream → Result ℤ
measure_ttft = Ttft.measure_ttft

unfoldable pub benchmark_ttft : Codec → Ttft.Service → Result (Dict Frac)
benchmark_ttft c serve = Ttft.benchmark_ttft c serve prompts

-- the body that each of the 20 requests has
unfoldable pub payload : ℕ → Json
payload i =
    Throughput.chat_payload
      (Throughput.message "user" "Explain what Tensor Parallelism is in 3 sentences." nil)

-- The requests complete in the order given, which is one of `range(20)`.
unfoldable pub benchmark_throughput : Codec → Throughput.Service → ℤ → List ℕ → Result Report
unfolding payload
benchmark_throughput c serve total order = Throughput.throughput c serve payload total order
