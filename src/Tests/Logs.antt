-- ===== src/Tests/Logs.antt =====
-- A file with two settings, and a host that answers to every container.
use radixgates.Base.{List, [], ◌∷◌, ◌++◌, none, some, false, ◌≡◌, refl, Str, lit, map, keep, arith}
use radixgates.Base.Dict.{Dict, lookup}
use radixgates.Python.{ok, ◌>>=◌}
use radixgates.Logs.{setting_of, load_env_file, file_lines}
use radixgates.Logs.Save.{
  Shell, ssh_commands, containers, Saved, save_via, log_path, saved, save_container_logs,
}
use radixgates.Logs.Env.{or_else, first_value, load_env_file-lookup}
use radixgates.Logs.Target.{save_container_logs-env_file}
use radixgates.Logs.Files.{answers, name_and_path, save_via-names}

abbrev text : Str
text = lit "# host\nSSH_TARGET=root@a:22\nSSH_TARGET=\"b:23\"\n"

load_env_file-lookup_example :
    (env : Dict Str) × (load_env_file (some (ok text)) [] ≡ ok env)
    × (lookup (lit "SSH_TARGET") env
        ≡ or_else none (first_value (lit "SSH_TARGET") (file_lines text)))
load_env_file-lookup_example = load_env_file-lookup text [] (lit "SSH_TARGET")

-- a shell that echoes the last word of the command
abbrev last_word : Shell
last_word [] = ok []
last_word (w ∷ []) = ok w
last_word (w ∷ v ∷ ws) = last_word (v ∷ ws)

first_target :
    first_value (lit "SSH_TARGET") (file_lines text) ≡ some (lit "root@a" ++ (58 ∷ lit "22"))
unfolding first_value file_lines setting_of
first_target = refl

save_container_logs-env_file_example :
    save_container_logs last_word
      (λ p. ok tt)
      false
      (ok 0)
      (some (ok text))
      []
      (lit "logs")
      (lit "t")
    ≡ (save_via last_word
          (λ p. ok tt)
          (ssh_commands (lit "22") (lit "root@a"))
          (lit "logs")
          (lit "t")
          containers
        >>= λ l. ok (saved l))
save_container_logs-env_file_example =
    save_container_logs-env_file last_word (λ p. ok tt) (ok 0) text [] (lit "logs") (lit "t") 114
      (lit "oot@a") (lit "22") refl first_target (ground arith)

abbrev saved_logs : List Saved
saved_logs =
    record {
      name = lit "gateway";
      path = lit "logs/gateway_t.log";
      content = lit "docker logs gateway";
    }
    ∷ []

saving :
    save_via last_word
      (λ p. ok tt)
      (ssh_commands (lit "22") (lit "h"))
      (lit "logs")
      (lit "t")
      (lit "gateway" ∷ [])
    ≡ ok saved_logs
unfolding save_via
saving = refl

save_via-names_example :
    map name_and_path saved_logs
    ≡ map
        (λ name. (name, log_path (lit "logs") (lit "t") name))
        (keep
          (λ name. answers name (last_word ((ssh_commands (lit "22") (lit "h")).ps name)))
          (lit "gateway" ∷ []))
save_via-names_example =
    save_via-names last_word (λ p. ok tt) (ssh_commands (lit "22") (lit "h")) (lit "logs") (lit "t")
      (lit "gateway" ∷ []) saved_logs saving
