-- ===== src/Logs/Files.antt =====
-- Which logs are saved, and in which files.
use mathlib.Core.List.{append_cancel_left, append_cancel_right}
use radixgates.Base.{
  List, [], ◌∷◌, ◌++◌, Bool, false, ◌≡◌, ap, sym, ◌∙◌, Str, lit, map, keep, contains_text,
  Bool-cases, inl, inr,
}
use radixgates.Python.{ok_injective, Result, ok, raise, >>=-eq-ok}
use radixgates.Logs.Save.{Shell, Commands, Saved, save_log, save_via, log_path}

-- whether the answer of `docker ps` has the name in it
abbrev pub answers : Str → Result Str → Bool
answers name (ok stdout) = contains_text stdout name
answers name (raise e) = false

abbrev pub name_and_path : Saved → Str × Str
name_and_path s = (s.name, s.path)

save_log-names :
    (run : Shell) (opens : Str → Result (Unit {0})) (cmds : Commands) (path name : Str)
    (rest : Result (List Saved)) (l : List Saved)
    → save_log run opens cmds path name rest ≡ ok l
    → (l' : List Saved) × (rest ≡ ok l')
      × (map name_and_path l ≡ (name, path) ∷ map name_and_path l')
unfolding save_log
save_log-names run opens cmds path name rest l e =
    let (u, _, e₁) = >>=-eq-ok (opens path) _ e in
    let (content, _, e₂) = >>=-eq-ok (run (cmds.logs name)) _ e₁ in
    let (l', er, e₃) = >>=-eq-ok rest _ e₂ in
    (l', er, ap (map name_and_path) (sym (ok_injective e₃)))

-- Whenever the collecting ends with a list, the containers in it are those of the given ones whose
-- name `docker ps` answers with, each in its place, with the file that belongs to it.
pub save_via-names :
    (run : Shell) (opens : Str → Result (Unit {0})) (cmds : Commands) (log_dir ts : Str)
    (names : List Str) (l : List Saved)
    → save_via run opens cmds log_dir ts names ≡ ok l
    → map name_and_path l
      ≡ map
          (λ name. (name, log_path log_dir ts name))
          (keep (λ name. answers name (run (cmds.ps name))) names)
unfolding save_via
save_via-names run opens cmds log_dir ts [] l e = ap (map name_and_path) (sym (ok_injective e))
save_via-names run opens cmds log_dir ts (name ∷ names) l e =
    let (stdout, es, e₁) = >>=-eq-ok (run (cmds.ps name)) _ e in
    elim (Bool-cases (contains_text stdout name)) [
      | inl found ↦
          let (l', er, same) =
            save_log-names run opens cmds (log_path log_dir ts name) name
              (save_via run opens cmds log_dir ts names) l (rw found at e₁) in
          same
          ∙ rw (es, found)
              (ap (λ t. (name, log_path log_dir ts name) ∷ t)
                (save_via-names run opens cmds log_dir ts names l' er))
      | inr other ↦
          rw (es, other) (save_via-names run opens cmds log_dir ts names l (rw other at e₁))
    ]

-- Different containers have different files.
pub log_path-injective :
    (log_dir ts a b : Str) → log_path log_dir ts a ≡ log_path log_dir ts b → a ≡ b
unfolding log_path
log_path-injective log_dir ts a b e = append_cancel_left dir a b (
    append_cancel_right (dir ++ a) (dir ++ b) (lit "_") (
      append_cancel_right (dir ++ a ++ lit "_") (dir ++ b ++ lit "_") ts (
        append_cancel_right (dir ++ a ++ lit "_" ++ ts) (dir ++ b ++ lit "_" ++ ts) (lit ".log")
          e)))
  where
    dir : Str
    dir = log_dir ++ lit "/"
