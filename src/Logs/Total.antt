-- ===== src/Logs/Total.antt =====
-- Where the shell and the files work, the collecting of the logs comes to an end.
use radixgates.Base.{
  ℕ, List, [], ◌∷◌, ◌≡◌, refl, Option, none, some, Str, Bool, true, false, Bool-cases, inl, inr,
  ◌⊎◌, contains_text,
}
use radixgates.Base.Dict.{Dict}
use radixgates.Python.{Result, ok}
use radixgates.Logs.{load_env_file, host_and_port}
use radixgates.Logs.Env.{load_env_file-lookup}
use radixgates.Logs.Save.{
  Shell, Commands, Saved, Collected, saved, log_path, containers, local_commands, ssh_commands,
  save_via, save_log, collect_by, docker_local_ok, target_in, save_container_logs,
}

-- Every command gives an output.
abbrev pub RunsAll : Shell → Type 0
RunsAll run = (command : List Str) → (out : Str) × (run command ≡ ok out)

-- Every file can be opened.
abbrev pub OpensAll : (Str → Result (Unit {0})) → Type 0
OpensAll opens = (path : Str) → opens path ≡ ok tt

module _ (run : Shell) (opens : Str → Result (Unit {0})) (works : RunsAll run)
    (can_open : OpensAll opens) where
  save_via_total :
      (cmds : Commands) (log_dir ts : Str) (names : List Str)
      → (l : List Saved) × (save_via run opens cmds log_dir ts names ≡ ok l)
  unfolding save_via
  save_via_total cmds log_dir ts [] = ([], refl)
  save_via_total cmds log_dir ts (name ∷ names) =
      let (out, eo) = works (cmds.ps name) in
      let (content, ec) = works (cmds.logs name) in
      let (l, el) = save_via_total cmds log_dir ts names in
      elim (Bool-cases (contains_text out name)) [
        | inl e ↦ (
          record { name = name; path = log_path log_dir ts name; content = content } ∷ l,
          rw (eo, e, save_log, can_open (log_path log_dir ts name), ec, el) refl,
        )
        | inr e ↦ (l, rw (eo, e, el) refl)
      ]

  collect_by_total :
      (log_dir ts : Str) (local : Bool) (ssh_target : Str)
      → (x : Collected) × (collect_by run opens log_dir ts local ssh_target ≡ ok x)
  unfolding collect_by
  collect_by_total log_dir ts true t =
      let (l, e) = save_via_total local_commands log_dir ts containers in (saved l, rw e refl)
  collect_by_total log_dir ts false [] = (_, refl)
  collect_by_total log_dir ts false (c ∷ s) =
      let (l, e) =
        save_via_total (ssh_commands (host_and_port (c ∷ s)).1 (host_and_port (c ∷ s)).0) log_dir ts
          containers in
      (saved l, rw e refl)

  docker_local_ok_total :
      (found : Bool) (status : ℕ) → (b : Bool) × (docker_local_ok found (ok status) ≡ ok b)
  docker_local_ok_total true status = (_, refl)
  docker_local_ok_total false status = (_, refl)

  load_env_file_total :
      (file : Option (Result Str)) (env : Dict Str)
      → (file ≡ none) ⊎ ((text : Str) × (file ≡ some (ok text)))
      → (env' : Dict Str) × (load_env_file file env ≡ ok env')
  unfolding load_env_file
  load_env_file_total file env (inl e) = (env, rw e refl)
  load_env_file_total file env (inr (text, e)) =
      let (env', loads, _) = load_env_file-lookup text env [] in (env', rw e loads)

  pub save_container_logs_total :
      (found : Bool) (status : ℕ) (file : Option (Result Str)) (env : Dict Str) (log_dir ts : Str)
      → (file ≡ none) ⊎ ((text : Str) × (file ≡ some (ok text)))
      → (x : Collected) × (save_container_logs run opens found (ok status) file env log_dir ts
          ≡ ok x)
  unfolding save_container_logs
  save_container_logs_total found status file env log_dir ts f =
      let (env', e₁) = load_env_file_total file env f in
      let (local, e₂) = docker_local_ok_total found status in
      let (x, e₃) = collect_by_total log_dir ts local (target_in env') in (x, rw (e₁, e₂, e₃) refl)
