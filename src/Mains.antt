-- ===== src/Mains.antt =====
-- The `main` functions of the examples, put together from the models of their parts.
pub mod Pd
pub mod Tp
pub mod Ep
pub mod Dp
pub mod Qa
pub mod Streaming
use radixgates.Base.{ℕ, List, [], ◌∷◌, ◌++◌, Str, Option, Bool, replicate}
use radixgates.Base.Int.{ℤ}
use radixgates.Base.Dict.{Dict}
use radixgates.Ttft
use radixgates.Throughput
use radixgates.Python.{Result, ok}
use radixgates.Python.Json.{Json, Codec}
use radixgates.Servers.{Files}
use radixgates.Throughput.{Reply}
use radixgates.Hardware.{Output}
use radixgates.Logs.Save.{Shell, Collected, save_container_logs}
use radixgates.Script.{Script, call}
use radixgates.Script.LogName.{Demo, log_path, time_in}

-- What a script finds: the gateway's address and its /health, the directory and the time of the
-- log, and what the collecting of the containers' logs needs.
pub record Host : Type 0 where
  pub codec : Codec
  pub gateway_url : Str
  pub health : Reply
  pub log_dir : Str
  pub stamp : Str
  pub shell : Shell
  pub opens : Str → Result (Unit {0})
  pub docker : Bool
  pub docker_info : Result ℕ
  pub env_file : Option (Result Str)
  pub env : Dict Str

-- What the gateway does in the two benchmarks, the wall time of the load, and the order in which
-- its requests complete.
pub record Bench : Type 0 where
  pub ttft : Ttft.Service
  pub load : Throughput.Service
  pub wall : ℤ
  pub order : List ℕ

-- What nvidia-smi gives: names, links, and the memory before and after the load.
pub record Gpus : Type 0 where
  pub names : Output
  pub topo : Output
  pub before : Output
  pub after : Output

-- What a server gives to the checks of its parallelism: its replies, its log files and the two
-- outputs of `docker logs`; and how `str` writes a value of its.
pub record Server : Type 0 where
  pub args : Reply
  pub info : Reply
  pub files : Files
  pub sglang_log : Str
  pub docker_logs : Result (Str × Str)
  pub show : Json → Str

-- `"=" * n` and `"─" * n`
abbrev pub bar : ℕ → Str
bar n = replicate n 61

abbrev pub dashes : ℕ → Str
dashes n = replicate n 0x2500

-- the warning sign and its variation selector
abbrev pub warning_sign : Str
warning_sign = 0x26a0 ∷ 0xfe0f ∷ []

-- `_save_container_logs(_LOG_DIR, ts)`
abbrev pub save : Host → Str → Result Collected
save h ts = save_container_logs h.shell h.opens h.docker h.docker_info h.env_file h.env h.log_dir ts

-- `os.path.basename(_log_path).replace("<name>_", "").replace(".log", "")`
abbrev pub time_of : Demo → Host → Str
time_of d h = time_in d (log_path d h.log_dir h.stamp)
