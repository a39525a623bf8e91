-- ===== src/Tests/Plot.antt =====
-- Requests in two seconds, and one behind the horizon.
use radixgates.Base.{refl, ◌++◌, Str, lit, some, arith, ℕ, ◌≡◌, List, [], ◌∷◌, Bool, true, false}
use radixgates.Base.Int.{ℤ, pos}
use radixgates.Stats.{Frac}
use radixgates.Plot.{Request}
use radixgates.Plot.Load.{fault_window, timeline}
use radixgates.Plot.Load.Window.{LacksMark, window_text, fault_window-text}

abbrev request : ℕ → Bool → Request
request t success = record { at = pos t; latency = pos 30; success = success }

abbrev rows : List Request
rows = request 0 true ∷ request 1999999 false ∷ request 2000000 true ∷ []

abbrev first_of : List ℤ → Frac
first_of [] = record { num = pos 0; den = 1 }
first_of (x ∷ xs) = record { num = x; den = 1 }

-- A commit's name with an "f" in it stands before.
abbrev environment : Str
environment = lit "upgraded: 2b63f2b (" ++ window_text (lit "8") (lit "20") (lit ", 30s)")

absent : LacksMark (lit "upgraded: 2b63f2b (")
absent = (
  refl,
  (
    refl,
    (
      refl,
      (
        refl,
        (
          refl,
          (
            refl,
            (
              refl,
              (
                refl,
                (
                  refl,
                  (
                    refl,
                    (refl, (refl, (refl, (refl, (refl, (refl, (refl, (refl, (refl, tt))))))))),
                  ),
                ),
              ),
            ),
          ),
        ),
      ),
    ),
  ),
)

fault_window-text_example : fault_window environment ≡ some (8, 20)
fault_window-text_example =
    fault_window-text (lit "upgraded: 2b63f2b (") (lit "8") (lit "20") (lit ", 30s)") absent
      (omega arith, (refl, tt)) (omega arith, (refl, (refl, tt)))

drawn :
    (timeline first_of (rows, pos 2500000) (rows, pos 9000000) environment).window ≡ some (8, 20)
unfolding timeline
drawn = refl

-- Four successes give no percentile.
gap : (timeline first_of (rows, pos 2500000) (rows, pos 9000000) environment).gap_note ≡ true
unfolding timeline
gap = refl
