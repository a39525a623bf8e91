-- ===== src/Tests/LongContext.antt =====
-- A long-context benchmark of three contexts, one of which gets no answer.
use radixgates.Base.{false-ne-true, sym, ◌≡◌, refl, List, [], ◌∷◌, Str, lit, map}
use radixgates.Base.Int.{ℤ, pos, negsuc, ◌+ℤ◌, ◌*ℤ◌, ◌-ℤ◌}
use radixgates.Python.{ok, raise, os_error}
use radixgates.Python.Json.{int, float}
use radixgates.Ttft.{Stream, done, broken, line}
use radixgates.LongContext.{Session, Entry, no_ratio, run, hit_rate}
use radixgates.Base.{ap, ◌≤◌, ◌++◌, length, str_eq, if◌then◌else◌}
use radixgates.LongContext.Contexts.{run_id, ctx_unique, benchmark, Endpoint, base_text}
use radixgates.LongContext.Contexts.Fresh.{ctx_unique_fresh}
use radixgates.Tests.Samples.{codec}

-- the first line is empty
abbrev first_at : ℤ → Stream
first_at t = line [] (pos 1) (pos 2) (line (lit "data: {hi}") t (pos 99) (broken os_error))

hits_float :
    hit_rate (int (pos 3)) (float (pos 45) (pos 1))
    ≡ ok (record { num = pos 300; den = pos 45; exponent = negsuc 0 })
unfolding ◌*ℤ◌ ◌-ℤ◌
hits_float = refl

abbrev contexts : List (Str × Session)
contexts =
    (
      lit "2K",
      record {
        cold = (pos 10, first_at (pos 40));
        warm =
            (pos 50, first_at (pos 60))
            ∷ (pos 70, broken os_error)
            ∷ (pos 80, first_at (pos 85))
            ∷ [];
        tokens = raise os_error;
      },
    )
    ∷ (lit "4K", record { cold = (pos 10, broken os_error); warm = []; tokens = ok [] })
    ∷ (lit "8K", record { cold = (pos 10, done (pos 12)); warm = []; tokens = ok (lit "!") })
    ∷ []

abbrev entries : List Entry
entries =
    record {
      size = lit "2K";
      token_count = int (pos 0);
      cold_ttft = pos 30;
      warm_ttft = record { num = pos 15; den = 2 };
      faster = record { num = pos 60; den = pos 15; exponent = pos 0 };
      hits = no_ratio;
    }
    ∷ record {
      size = lit "8K";
      token_count = int (pos 0);
      cold_ttft = pos 0;
      warm_ttft = record { num = pos 0; den = 1 };
      faster = no_ratio;
      hits = no_ratio;
    }
    ∷ []

summary : run codec contexts ≡ ok entries
unfolding run ◌-ℤ◌ ◌+ℤ◌ ◌*ℤ◌
summary = refl

-- The same size at two times.
abbrev common : Str
common = lit "Unique_Run_ID: 2K_17"

ctx_unique_fresh_example : length common ≤ length (run_id (lit "2K") (lit "1700"))
unfolding ctx_unique
ctx_unique_fresh_example =
    ctx_unique_fresh (lit "2K") (lit "2K") (lit "1700") (lit "1750") base_text base_text common
      (lit "00" ++ (32 ∷ 10 ∷ base_text)) (lit "50" ++ (32 ∷ 10 ∷ base_text)) refl refl refl refl
      (λ p. differ p.1) refl refl
  where
    differ : lit "1700" ≡ lit "1750" → ⊥
    differ e = false-ne-true (sym (ap (str_eq (lit "1700")) e))

-- Only the size of 4K gets a cold answer.
abbrev service : Endpoint
service = record {
  now = λ label. lit "1700";
  streams = λ label i body.
      (pos 10, if str_eq label (lit "4K") then first_at (pos 40) else broken os_error);
  replies = λ label body. raise os_error;
}

sizes : (l : List Entry) × (benchmark codec service ≡ ok l) × (map (λ e. e.size) l ≡ lit "4K" ∷ [])
unfolding benchmark ◌-ℤ◌ ◌+ℤ◌ ◌*ℤ◌
sizes = (_, refl, refl)
