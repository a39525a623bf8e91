-- ===== src/Ttft/Sign.antt =====
-- Which measurements the test `t > 0` of `benchmark_ttft` keeps.
use radixgates.Base.{◌≡◌, Bool, true, false}
use radixgates.Base.{arith, not}
use radixgates.Base.Int.{ℤ, pos, ltb_ℤ, ◌<ℤ◌, -ℤ_parts}
use radixgates.Python.{ok}
use radixgates.Python.Json.{Codec}
use radixgates.Ttft.{Stream, done, broken, line}
use radixgates.Ttft.{measure_ttft}
use radixgates.Ttft.Laws.{Ending, error, Ends, answer, measure_ttft-Ends}
use radixgates.Ttft.Laws.{at_done, at_broken, at_token, at_finish, at_failure, past}

-- Every reading of the clock that the loop can take is later than the start.
abbrev pub IsLater : ℤ → Stream → Type 0
IsLater t_start (done now) = t_start <ℤ now
IsLater t_start (broken e) = Unit
IsLater t_start (line raw now after rest) =
    (t_start <ℤ now) × (t_start <ℤ after) × IsLater t_start rest

abbrev pub is_error : Ending → Bool
is_error (error e) = true
is_error _ = false

answer-sign :
    (c : Codec) (t_start t : ℤ) {s : Stream} {x : Ending}
    → IsLater t_start s
    → Ends c s x
    → answer t_start x ≡ ok t
    → ltb_ℤ (pos 0) t ≡ not (is_error x)
unfolding answer
answer-sign c t_start t h (at_done now) e = ground (arith, -ℤ_parts now t_start)
answer-sign c t_start t h (at_broken x) e = ground arith
answer-sign c t_start t h (at_token raw now after rest v) e =
    ground (arith, -ℤ_parts now t_start, -ℤ_parts after t_start)
answer-sign c t_start t h (at_finish raw now after rest v) e =
    ground (arith, -ℤ_parts after t_start)
answer-sign c t_start t h (at_failure raw now after rest x v) e = ground arith
answer-sign c t_start t h (past raw now after v r) e = answer-sign c t_start t h.2 r e

-- If the clock has moved on since the start, `t > 0` keeps a measurement exactly if the request did
-- not end with an exception, whether or not a token was seen.
measure_ttft-sign :
    (c : Codec) (t_start t : ℤ) {s : Stream} {x : Ending}
    → IsLater t_start s
    → Ends c s x
    → measure_ttft c t_start s ≡ ok t
    → ltb_ℤ (pos 0) t ≡ not (is_error x)
measure_ttft-sign c t_start t h r e =
    answer-sign c t_start t h r (rw (measure_ttft-Ends c t_start r) at e)
