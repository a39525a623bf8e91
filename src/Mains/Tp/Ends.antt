-- ===== src/Mains/Tp/Ends.antt =====
-- When examples/tp_demo.py comes to its end.
use radixgates.Base.{ℕ, ◌≡◌, ◌⊎◌, All, Option, none, some, Str}
use radixgates.Base.Int.{ℤ}
use radixgates.Python.{ok, interrupt}
use radixgates.Python.Catch.{Catchable}
use radixgates.Python.Json.{Json, obj, Fields, Codec}
use radixgates.Ttft
use radixgates.Ttft.{broken}
use radixgates.Ttft.Bench.{Measures}
use radixgates.Throughput.{Reply, lost, reply}
use radixgates.Throughput.Laws.{IsCalm}
use radixgates.Demos.Tp.{payload}
use radixgates.Logs.Total.{RunsAll, OpensAll}
use radixgates.Servers.Tp.Laws.{CalmFile}
use radixgates.Mains.{Host, Bench, Gpus, Server}

-- The body of the answer is a JSON object.
abbrev pub SaysObject : Codec → Reply → Type 0
SaysObject c (lost e) = ⊥
SaysObject c (reply status body) = (fs : Fields) × (c.loads body ≡ some (obj fs))

-- The shell and the files work, and nothing interrupts the request of the gateway's /health.
abbrev pub IsWorking : Host → Type 0
IsWorking h =
    RunsAll h.shell
    × OpensAll h.opens
    × ((status : ℕ) × (h.docker_info ≡ ok status))
    × ((h.env_file ≡ none) ⊎ ((text : Str) × (h.env_file ≡ some (ok text))))
    × IsCalm h.health

-- Nothing interrupts nvidia-smi, which may fail.
abbrev pub CalmGpus : Gpus → Type 0
CalmGpus g = Catchable g.names × Catchable g.topo × Catchable g.before × Catchable g.after

-- Nothing interrupts the checks of the server, which may fail.
abbrev pub CalmServer : Server → Type 0
CalmServer v = IsCalm v.args × IsCalm v.info × ((p : Str) → CalmFile (v.files p))

-- Nothing interrupts the two benchmarks, of which any request may fail; or else the user ends the
-- first of their requests.
abbrev pub CalmBench : Host → Bench → Type 0
CalmBench h b =
    ((time : ℕ → Str → ℤ) × Measures h.codec b.ttft time
      × All (λ i. IsCalm (b.load i (payload i)).result) b.order)
    ⊎ ((body : Json) → (b.ttft 0 body).1 ≡ broken interrupt)
