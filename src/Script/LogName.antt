-- ===== src/Script/LogName.antt =====
-- The name of a script's log file, and the time in it, which the logs of the containers get too.
pub mod Laws
use radixgates.Base.{
  ℕ, zero, suc, ◌-◌, List, [], ◌∷◌, ◌++◌, Str, lit, Bool, any, ◌==◌, length, starts_with,
  if◌then◌else◌,
}

-- the examples that save logs
pub data Demo : Type 0 where
  pd tp ep dp qa streaming : Demo

abbrev pub name_of : Demo → Str
name_of pd = lit "pd_demo"
name_of tp = lit "tp_demo"
name_of ep = lit "ep_demo"
name_of dp = lit "dp_demo"
name_of qa = lit "enterprise_qa_demo"
name_of streaming = lit "streaming_demo"

-- `_log_path`, for the time as `strftime` writes it and a directory without a final "/"
unfoldable pub log_path : Demo → Str → Str → Str
log_path d log_dir stamp = log_dir ++ (47 ∷ (name_of d ++ (95 ∷ (stamp ++ lit ".log"))))

-- `os.path.basename(path)`: what follows the last "/"
unfoldable pub basename : Str → Str
basename [] = []
basename (c ∷ s) = let rest = basename s in if any (λ x. x == 47) (c ∷ s) then rest else c ∷ s

-- `s.replace(p, "")` for a text `p` that is not empty, after `skip` characters that are dropped
unfoldable pub remove : ℕ → Str → Str → Str
remove skip p [] = []
remove (suc skip) p (c ∷ s) = remove skip p s
remove zero p (c ∷ s) =
    let found = remove (length p - 1) p s in
    let kept = c ∷ remove zero p s in if starts_with (c ∷ s) p then found else kept

-- `os.path.basename(path).replace("<name>_", "").replace(".log", "")`
unfoldable pub time_in : Demo → Str → Str
unfolding basename remove
time_in d path = remove zero (lit ".log") (remove zero (name_of d ++ lit "_") (basename path))
