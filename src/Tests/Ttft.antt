-- ===== src/Tests/Ttft.antt =====
-- Streams that end in each of the ways, and a benchmark of two prompts.
use radixgates.Base.{◌≡◌, refl, List, [], ◌∷◌, Str, lit, ◌*◌}
use radixgates.Base.Int.{pos, ◌-ℤ◌}
use radixgates.Base.Dict.{Dict, lookup}
use radixgates.Python.{ok, os_error}
use radixgates.Stats.{Frac, median}
use radixgates.Ttft.{
  Stream, done, broken, line, Service, measure_ttft, benchmark_ttft, line_event, failure,
}
use radixgates.Ttft.Laws.{Ending, Ends, answer, first_token, at_token, past, measure_ttft_total}
use radixgates.Ttft.Bench.{kept, benchmark_ttft-lookup}
use radixgates.Tests.Samples.{codec}

-- an empty line and an empty chunk before the first token; what follows is not read
abbrev stream : Stream
stream = line [] (pos 12) (pos 13) (
    line (lit "data: {}") (pos 14) (pos 15)
      (line (lit "data: {hi}") (pos 17) (pos 18) (broken os_error)))

measured : measure_ttft codec (pos 10) stream ≡ ok (pos 7)
unfolding measure_ttft ◌-ℤ◌
measured = refl

-- A body with no token, such as that of an error, counts as a time too.
no_token :
    measure_ttft codec (pos 10) (line (lit "{busy}") (pos 11) (pos 12) (done (pos 13))) ≡ ok (pos 3)
unfolding measure_ttft ◌-ℤ◌
no_token = refl

lost : measure_ttft codec (pos 10) (broken os_error) ≡ ok failure
unfolding measure_ttft
lost = refl

measure_ttft_total_example :
    (x : Ending) × Ends codec stream x × (measure_ttft codec (pos 10) stream ≡ answer (pos 10) x)
measure_ttft_total_example = measure_ttft_total codec (pos 10) stream

stream-Ends : Ends codec stream (first_token (pos 17) (pos 18))
unfolding line_event
stream-Ends =
    past [] (pos 12) (pos 13) refl
      (past _ (pos 14) (pos 15) refl (at_token _ (pos 17) (pos 18) _ refl))

-- every request takes 7, whatever it asks
abbrev serve : Service
serve n body = (pos 10, stream)

abbrev two_prompts : List (Str × Str)
two_prompts = (lit "short", lit "Say hi.") ∷ (lit "long", lit "Say more.") ∷ []

benchmark_ttft-lookup_example :
    (results : Dict Frac) × (benchmark_ttft codec serve two_prompts ≡ ok results)
    × (lookup (lit "long") results ≡ median (kept (λ n prompt. pos 7) (lit "Say more.") 5 (5 * 1)))
benchmark_ttft-lookup_example =
    benchmark_ttft-lookup codec serve (λ n prompt. pos 7) two_prompts 1 (lit "long")
      (lit "Say more.") (λ n prompt. measured) ((refl, tt), (tt, tt)) refl
