-- ===== src/Servers/Scan.antt =====
-- `check_alltoall_in_logs` of examples/ep_demo.py. Letters are ASCII.
pub mod Laws
use radixgates.Base.{
  ℕ, ◌-◌, List, [], ◌∷◌, ◌++◌, Str, lit, Bool, true, false, any, keep, map, take, length,
  contains_text, splitlines, strip, is_empty, if◌then◌else◌,
}
use radixgates.Python.{Exc, missing_file, Result, ok, raise, is_exception}
use radixgates.Servers.Search.{lower}

-- `keywords`, in lower case
abbrev pub keywords : List Str
keywords =
    lit "expert_parallel"
    ∷ lit "all_to_all"
    ∷ lit "alltoall"
    ∷ lit "all-to-all"
    ∷ lit "ep_size"
    ∷ lit "expertparallel"
    ∷ lit "dispatch"
    ∷ lit "gather"
    ∷ []

-- `any(kw.lower() in line_lower for kw in keywords)`
unfoldable pub has_keyword : Str → Bool
has_keyword line = any (λ k. contains_text (map lower line) k) keywords

-- What is printed: the first lines that were found and the number of others, or that there are
-- none, that there are no logs or no docker, or the exception.
pub data Scan : Type 0 where
  empty_logs no_keyword no_docker : Scan
  failed : Exc → Scan
  evidence : List Str → ℕ → Scan

abbrev pub shown_of : List Str → Scan
shown_of [] = no_keyword
shown_of (line ∷ found) = evidence (take 20 (line ∷ found)) (length (line ∷ found) - 20)

unfoldable pub scan_text : Str → Scan
unfolding strip splitlines has_keyword
scan_text log_text =
    if is_empty (strip log_text)
    then empty_logs
    else shown_of (map strip (keep has_keyword (splitlines log_text)))

-- from the two outputs of `docker logs`, or an exception of `subprocess.run`
unfoldable pub check_alltoall_in_logs : Result (Str × Str) → Result Scan
unfolding scan_text
check_alltoall_in_logs (ok (out, err)) = ok (scan_text (out ++ err))
check_alltoall_in_logs (raise missing_file) = ok no_docker
check_alltoall_in_logs (raise x) = if is_exception x then ok (failed x) else raise x
