-- ===== src/Ttft/Laws.antt =====
-- How a measurement ends: a relation that says where the loop leaves the body, and the value that
-- `measure_ttft` returns for each way out.
use radixgates.Base.{◌≡◌, refl}
use radixgates.Base.{Str, if◌then◌else◌}
use radixgates.Base.Int.{ℤ, pos, ◌-ℤ◌, eqb_ℤ}
use radixgates.Python.{Exc, Result, ok, raise}
use radixgates.Python.{is_exception}
use radixgates.Python.Json.{Codec}
use radixgates.Ttft.{Stream, done, broken, line, Event, skipped, finished, token, failed}
use radixgates.Ttft.{line_event, read_stream, failure, measure_ttft}

pub data Ending : Type 0 where
  first_token : ℤ → ℤ → Ending
  closed : ℤ → Ending
  error : Exc → Ending

-- Where the loop leaves the body. Lines that are skipped lie before, and nothing behind is read.
pub data Ends (c : Codec) : Stream → Ending → Type 0 where
  at_done : (now : ℤ) → Ends c (done now) (closed now)
  at_broken : (e : Exc) → Ends c (broken e) (error e)
  at_token :
      (raw : Str) (now after : ℤ) (rest : Stream)
      → line_event c raw ≡ token
      → Ends c (line raw now after rest) (first_token now after)
  at_finish :
      (raw : Str) (now after : ℤ) (rest : Stream)
      → line_event c raw ≡ finished
      → Ends c (line raw now after rest) (closed after)
  at_failure :
      (raw : Str) (now after : ℤ) (rest : Stream) (e : Exc)
      → line_event c raw ≡ failed e
      → Ends c (line raw now after rest) (error e)
  past :
      (raw : Str) (now after : ℤ) {rest : Stream} {x : Ending}
      → line_event c raw ≡ skipped
      → Ends c rest x
      → Ends c (line raw now after rest) x

unfoldable pub answer : ℤ → Ending → Result ℤ
answer t_start (first_token now after) =
    ok (if eqb_ℤ (now -ℤ t_start) (pos 0) then after -ℤ t_start else now -ℤ t_start)
answer t_start (closed now) = ok (now -ℤ t_start)
answer t_start (error e) = if is_exception e then ok failure else raise e

event-Ends :
    (c : Codec) (raw : Str) (now after : ℤ) (rest : Stream) (v : Event)
    → line_event c raw ≡ v
    → (x : Ending) × Ends c rest x
    → (x : Ending) × Ends c (line raw now after rest) x
event-Ends c raw now after rest skipped e (x, r) = (x, past raw now after e r)
event-Ends c raw now after rest finished e more = (closed after, at_finish raw now after rest e)
event-Ends c raw now after rest token e more =
    (first_token now after, at_token raw now after rest e)
event-Ends c raw now after rest (failed x) e more = (error x, at_failure raw now after rest x e)

pub Ends-total : (c : Codec) (s : Stream) → (x : Ending) × Ends c s x
Ends-total c (done now) = (closed now, at_done now)
Ends-total c (broken e) = (error e, at_broken e)
Ends-total c (line raw now after rest) =
    event-Ends c raw now after rest (line_event c raw) refl (Ends-total c rest)

pub measure_ttft-Ends :
    (c : Codec) (t_start : ℤ) {s : Stream} {x : Ending}
    → Ends c s x
    → measure_ttft c t_start s ≡ answer t_start x
unfolding measure_ttft answer
measure_ttft-Ends c t_start (at_done now) = refl
measure_ttft-Ends c t_start (at_broken e) = refl
measure_ttft-Ends c t_start (at_token raw now after rest e) = rw (e, read_stream)
measure_ttft-Ends c t_start (at_finish raw now after rest e) = rw (e, read_stream)
measure_ttft-Ends c t_start (at_failure raw now after rest x e) = rw (e, read_stream)
measure_ttft-Ends c t_start (past raw now after e r) =
    rw (e, read_stream) (measure_ttft-Ends c t_start r)

-- On every body the loop is left in one of these ways, and `measure_ttft` returns what goes with it:
-- the time of the first line that carries a token (or the time of leaving, if that is 0), the time
-- of leaving at the end mark or the end of the body, and -1.0 after an exception that `except Exception`
-- catches.
pub measure_ttft_total :
    (c : Codec) (t_start : ℤ) (s : Stream)
    → (x : Ending) × Ends c s x × (measure_ttft c t_start s ≡ answer t_start x)
measure_ttft_total c t_start s =
    let (x, r) = Ends-total c s in (x, r, measure_ttft-Ends c t_start r)
