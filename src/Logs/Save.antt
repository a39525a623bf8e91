-- ===== src/Logs/Save.antt =====
-- The collection of the logs of the containers in examples/_log_utils.py, from the shell's commands to
-- the files.
use radixgates.Base.{ℕ, List, [], ◌∷◌, ◌++◌, Option, none, some, Bool, true, false}
use radixgates.Base.{◌==◌, Str, lit, contains_text}
use radixgates.Base.{if◌then◌else◌}
use radixgates.Base.Dict.{Dict, lookup}
use radixgates.Python.{Result, ok, ◌>>=◌, ◌>>◌}
use radixgates.Logs.{load_env_file, host_and_port}

abbrev pub containers : List Str
containers =
    lit "gateway"
    ∷ lit "sglang-dp-0"
    ∷ lit "sglang-dp-1"
    ∷ lit "sglang-dp-2"
    ∷ lit "sglang-dp-3"
    ∷ lit "sglang-ep"
    ∷ lit "sglang-tp"
    ∷ lit "sglang-router"
    ∷ lit "sglang-prefill"
    ∷ lit "sglang-decode"
    ∷ []

-- What running a command gives: its standard output.
abbrev pub Shell : Type 0
Shell = List Str → Result Str

-- How a container is asked for, and how its log is fetched.
pub record Commands : Type 0 where
  pub ps : Str → List Str
  pub logs : Str → List Str

abbrev pub local_commands : Commands
local_commands = record {
  ps = λ name.
      lit "docker"
      ∷ lit "ps"
      ∷ lit "--filter"
      ∷ (lit "name=^" ++ name ++ lit "$")
      ∷ lit "--format"
      ∷ lit "{{.Names}}"
      ∷ [];
  logs = λ name. lit "docker" ∷ lit "logs" ∷ name ∷ [];
}

abbrev pub ssh_commands : Str → Str → Commands
ssh_commands port host = record {
  ps = λ name.
      lit "ssh"
      ∷ lit "-p"
      ∷ port
      ∷ lit "-o"
      ∷ lit "StrictHostKeyChecking=no"
      ∷ lit "-o"
      ∷ lit "ConnectTimeout=5"
      ∷ host
      ∷ (lit "docker ps --filter name=^" ++ name ++ lit "$ --format '{{.Names}}'")
      ∷ [];
  logs = λ name.
      lit "ssh"
      ∷ lit "-p"
      ∷ port
      ∷ lit "-o"
      ∷ lit "StrictHostKeyChecking=no"
      ∷ host
      ∷ (lit "docker logs " ++ name)
      ∷ [];
}

-- `os.path.join(log_dir, f"{name}_{ts}.log")` for a directory without a final "/"
unfoldable pub log_path : Str → Str → Str → Str
log_path log_dir ts name = log_dir ++ lit "/" ++ name ++ lit "_" ++ ts ++ lit ".log"

-- A log that was saved: the container, the file, and what `docker logs` wrote to its standard
-- output. Its standard error goes to the file too.
pub record Saved : Type 0 where
  pub name : Str
  pub path : Str
  pub content : Str

-- Saves one log before the rest. `opens` is what `open(path, "w")` comes to.
unfoldable pub save_log :
    Shell
    → (Str → Result (Unit {0}))
    → Commands
    → Str
    → Str
    → Result (List Saved)
    → Result (List Saved)
save_log run opens cmds path name rest = do
  opens path
  content ← run (cmds.logs name)
  l ← rest
  ok (record { name = name; path = path; content = content } ∷ l)

-- The loop of `_save_via_local` and of `_save_via_ssh`, which differ in the commands.
unfoldable pub save_via :
    Shell → (Str → Result (Unit {0})) → Commands → Str → Str → List Str → Result (List Saved)
unfolding log_path save_log
save_via run opens cmds log_dir ts [] = ok []
save_via run opens cmds log_dir ts (name ∷ names) =
    let rest = save_via run opens cmds log_dir ts names in
    run (cmds.ps name) >>= λ stdout.
    if contains_text stdout name
    then save_log run opens cmds (log_path log_dir ts name) name rest
    else rest

-- `_docker_local_ok()`: whether docker is on the path, and the exit status of `docker info`
abbrev pub docker_local_ok : Bool → Result ℕ → Result Bool
docker_local_ok false status = ok false
docker_local_ok true status = status >>= λ code. ok (code == 0)

pub data Collected : Type 0 where
  saved : List Saved → Collected
  not_configured : Collected

-- `os.environ.get("SSH_TARGET", "")`
unfoldable pub target_in : Dict Str → Str
target_in env = elim (lookup (lit "SSH_TARGET") env) [ none ↦ [] | some t ↦ t ]

unfoldable pub collect_by :
    Shell → (Str → Result (Unit {0})) → Str → Str → Bool → Str → Result Collected
unfolding save_via host_and_port
collect_by run opens log_dir ts true ssh_target =
    save_via run opens local_commands log_dir ts containers >>= λ l. ok (saved l)
collect_by run opens log_dir ts false [] = ok not_configured
collect_by run opens log_dir ts false (c ∷ s) =
    let (host, port) = host_and_port (c ∷ s) in
    save_via run opens (ssh_commands port host) log_dir ts containers >>= λ l. ok (saved l)

-- `save_container_logs`, with what is printed at its end as its value
unfoldable pub save_container_logs :
    Shell
    → (Str → Result (Unit {0}))
    → Bool
    → Result ℕ
    → Option (Result Str)
    → Dict Str
    → Str
    → Str
    → Result Collected
unfolding load_env_file collect_by target_in
save_container_logs run opens found status file env log_dir ts = do
  env' ← load_env_file file env
  local ← docker_local_ok found status
  collect_by run opens log_dir ts local (target_in env')
