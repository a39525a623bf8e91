-- ===== src/RealEngine/Main.antt =====
-- `main` of benchmarks/real_engine/run_real.py with its results: the runs between the starts and the
-- stops of the gateways, and the text of summary.md.
pub mod Steps
pub mod Runs
pub mod Values
use radixgates.Base.{
  split_on, none, lit, ℕ, zero, suc, List, [], ◌∷◌, Bool, true, false, not, Str, if◌then◌else◌,
}
use radixgates.Python.{Result, ok, raise}
use radixgates.RealEngine.{is_roundrobin}
use radixgates.RealEngine.Config.{Options}
use radixgates.RealEngine.Fleet.{
  World, Host, Act, ◌>>=◌, ◌>>◌, host, start_workers, start_gateway, stop, close, build_gateways,
  rmtree, remove_worktree,
}
use radixgates.RealEngine.Report.{Measured, Results, add_policies, append_to}
use radixgates.RealEngine.Report.Text.{Medians, Setting, summary_text}

-- What the n-th repeat of a policy measures.
abbrev pub Runs : Type 0
Runs = ℕ → Str → Result Measured

abbrev pub has_gateway : Str → Bool
has_gateway policy = not (is_roundrobin policy)

-- one turn of the inner loop; the flag says that the policy has a gateway
unfoldable pub run_measured : Host → Result Measured → Str → Results → Bool → Act Results
unfolding start_gateway stop append_to
run_measured h r policy d false = host r >>= λ s. host (append_to policy s d)
run_measured h r policy d true = do
  gw ← start_gateway h
  s ← host r
  d' ← host (append_to policy s d)
  stop h gw
  host (ok d')

-- the inner loop
unfoldable pub run_row : Host → Runs → ℕ → List Str → Results → Act Results
unfolding run_measured
run_row h m rep [] d = host (ok d)
run_row h m rep (policy ∷ policies) d =
    run_measured h (m rep policy) policy d (has_gateway policy) >>= λ d'.
    run_row h m rep policies d'

-- so many repeats from the rep-th on
unfoldable pub run_rows : Host → Runs → List Str → ℕ → ℕ → Results → Act Results
unfolding run_row
run_rows h m policies zero rep d = host (ok d)
run_rows h m policies (suc n) rep d =
    run_row h m rep policies d >>= λ d'. run_rows h m policies n (suc rep) d'

-- the `try` behind the build
unfoldable pub run_fleet : Host → ℕ → Runs → List Str → ℕ → Act Results
unfolding start_workers run_rows add_policies
run_fleet h workers m policies repeats = do
  start_workers h workers
  host h.warms
  run_rows h m policies repeats 0 (add_policies policies [])

-- what follows the build, with the `finally`
unfoldable pub finish_fleet :
    Host → ℕ → Runs → List Str → ℕ → Result (Unit {0}) × World → Result Results × World
unfolding run_fleet close
finish_fleet h workers m policies repeats (raise e, w) = (raise e, rmtree h (close w))
finish_fleet h workers m policies repeats (ok u, w) =
    let (r, w') = run_fleet h workers m policies repeats w in
    remove_worktree h h.removes_worktree (r, close w')

-- the `try` of `main`
unfoldable pub main_results : Host → ℕ → Runs → List Str → ℕ → Act Results
unfolding build_gateways finish_fleet
main_results h workers m policies repeats w =
    finish_fleet h workers m policies repeats (build_gateways h w)

-- `main` up to what it writes to summary.md
unfoldable pub main : Host → ℕ → Runs → List Str → ℕ → Medians → Setting → Act Str
unfolding main_results summary_text
main h workers m policies repeats medians args =
    main_results h workers m policies repeats >>= λ d. host (summary_text medians args d)

-- The defaults of the command line, and the policies that `args.policies.split(",")` makes of them.
abbrev pub default_options : Options
default_options = record { workers = 3; slots = 2; concurrency = 6; affinity_wait = lit "10s" }

abbrev pub default_setting : Setting
default_setting = record {
  workers = 3;
  slots = 2;
  cache_ram = none;
  prompts = 6;
  per_prompt = 20;
  concurrency = 6;
  repeats = 3;
}

unfoldable pub policies_of : Str → List Str
unfolding split_on
policies_of text = split_on 44 text

abbrev pub default_policies : Str
default_policies =
    lit "original,upgraded,upgraded_wait,upgraded_place,upgraded_place_wait,roundrobin"
