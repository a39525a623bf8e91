-- ===== src/Logs/Target.antt =====
-- How SSH_TARGET is taken apart, and which way of collecting the logs is chosen.
use radixgates.Base.{
  ℕ, [], ◌∷◌, ◌++◌, Option, none, some, false, ◌≡◌, refl, ap, ◌∙◌, ◌==◌, Str, lit,
}
use radixgates.Base.Dict.{Dict, lookup}
use radixgates.Base.Strip.{Without}
use radixgates.Python.{Result, ok, ◌>>=◌}
use radixgates.Logs.{
  before_split, default_port, rsplit_colon, host_and_port, load_env_file, file_lines,
}
use radixgates.Logs.Save.{
  docker_local_ok, Shell, ssh_commands, containers, save_via, saved, target_in, collect_by,
  save_container_logs,
}
use radixgates.Logs.Env.{first_value, or_else, load_env_file-lookup}

rsplit_colon-none : (s : Str) → Without (λ c. c == 58) s → rsplit_colon s ≡ (s, none)
unfolding rsplit_colon
rsplit_colon-none [] h = refl
rsplit_colon-none (c ∷ s) h = ap (before_split c s) (rsplit_colon-none s h.1) ∙ rw h.0

rsplit_colon-last :
    (host port : Str)
    → Without (λ c. c == 58) port
    → rsplit_colon (host ++ (58 ∷ port)) ≡ (host, some port)
unfolding rsplit_colon
rsplit_colon-last [] port h = ap (before_split 58 port) (rsplit_colon-none port h)
rsplit_colon-last (c ∷ host) port h =
    ap (before_split c (host ++ (58 ∷ port))) (rsplit_colon-last host port h)

-- A target "host:port" is taken apart at its last colon, and one without a colon gets port 22.
pub host_and_port-colon :
    (host port : Str)
    → Without (λ c. c == 58) port
    → (host_and_port (host ++ (58 ∷ port)) ≡ (host, port)) × (host_and_port port ≡ (port, lit "22"))
unfolding host_and_port
host_and_port-colon host port h =
    (ap default_port (rsplit_colon-last host port h), ap default_port (rsplit_colon-none port h))

save_container_logs-loaded :
    (run : Shell) (opens : Str → Result (Unit {0})) (status : Result ℕ) (file : Option (Result Str))
    (env env' : Dict Str) (log_dir ts : Str)
    → load_env_file file env ≡ ok env'
    → save_container_logs run opens false status file env log_dir ts
      ≡ collect_by run opens log_dir ts false (target_in env')
unfolding save_container_logs
save_container_logs-loaded run opens status file env env' log_dir ts e =
    ap
      (λ m. m >>= λ loaded. docker_local_ok false status >>= λ local.
        collect_by run opens log_dir ts local (target_in loaded))
      e

target_in-some :
    (env : Dict Str) (t : Str) → lookup (lit "SSH_TARGET") env ≡ some t → target_in env ≡ t
unfolding target_in
target_in-some env t e = ap (λ o. elim o [ none ↦ [] | some u ↦ u ]) e

collect_by-ssh :
    (run : Shell) (opens : Str → Result (Unit {0})) (log_dir ts : Str) (c : ℕ) (s host port : Str)
    → host_and_port (c ∷ s) ≡ (host, port)
    → collect_by run opens log_dir ts false (c ∷ s)
      ≡ (save_via run opens (ssh_commands port host) log_dir ts containers >>= λ l. ok (saved l))
unfolding collect_by
collect_by-ssh run opens log_dir ts c s host port e =
    ap
      (λ (hp : Str × Str).
        save_via run opens (ssh_commands hp.1 hp.0) log_dir ts containers >>= λ l. ok (saved l))
      e

-- If docker is not to be had and SSH_TARGET is not set, the logs are fetched from the host and port
-- that the first line of the .env file that sets SSH_TARGET names.
pub save_container_logs-env_file :
    (run : Shell) (opens : Str → Result (Unit {0})) (status : Result ℕ) (text : Str)
    (env : Dict Str) (log_dir ts : Str) (c : ℕ) (host port : Str)
    → lookup (lit "SSH_TARGET") env ≡ none
    → first_value (lit "SSH_TARGET") (file_lines text) ≡ some ((c ∷ host) ++ (58 ∷ port))
    → Without (λ d. d == 58) port
    → save_container_logs run opens false status (some (ok text)) env log_dir ts ≡ (
        save_via run opens (ssh_commands port (c ∷ host)) log_dir ts containers >>= λ l.
        ok (saved l))
save_container_logs-env_file run opens status text env log_dir ts c host port unset set h =
    let (env', loads, found) = load_env_file-lookup text env (lit "SSH_TARGET") in
    let target : lookup (lit "SSH_TARGET") env' ≡ some ((c ∷ host) ++ (58 ∷ port)) =
      found ∙ ap (λ o. or_else o (first_value (lit "SSH_TARGET") (file_lines text))) unset ∙ set in
    save_container_logs-loaded run opens status (some (ok text)) env env' log_dir ts loads
    ∙ ap (collect_by run opens log_dir ts false) (target_in-some env' _ target)
    ∙ collect_by-ssh run opens log_dir ts c (host ++ (58 ∷ port)) (c ∷ host) port
        (host_and_port-colon (c ∷ host) port h).0
