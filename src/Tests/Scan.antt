-- ===== src/Tests/Scan.antt =====
-- Logs of a server that runs without expert parallelism.
use radixgates.Base.{◌≡◌, refl, [], ◌∷◌, ◌++◌, Str, lit}
use radixgates.Python.{ok, raise, missing_file, os_error, interrupt}
use radixgates.Servers.Scan.{no_docker, empty_logs, failed, check_alltoall_in_logs}

-- Its arguments, which it prints when it starts, are evidence to the scan.
abbrev out : Str
out = lit "server_args ep_size=1" ++ (10 ∷ lit "ready")

other_ends :
    (check_alltoall_in_logs (raise missing_file) ≡ ok no_docker)
    × (check_alltoall_in_logs (raise os_error) ≡ ok (failed os_error))
    × (check_alltoall_in_logs (raise interrupt) ≡ raise interrupt)
    × (check_alltoall_in_logs (ok (10 ∷ [], lit " ")) ≡ ok empty_logs)
unfolding check_alltoall_in_logs
other_ends = (refl, refl, refl, refl)
