-- ===== src/Mains/Qa.antt =====
-- `main` of examples/enterprise_qa_demo.py.
use radixgates.Base.{ℕ, List, [], ◌∷◌, ◌++◌, Str, lit, ◌==◌, length, if◌then◌else◌}
use radixgates.Base.Int.{ℤ}
use radixgates.Base.Decimal.{show_ℕ}
use radixgates.Demos.Gateway.{check_direct}
use radixgates.Demos.Qa.{department_prompts, count_results}
use radixgates.Throughput
use radixgates.Script.{Part, Script, ◌>>=◌, ◌>>◌, say, call}
use radixgates.Script.LogName.{Demo}
use radixgates.Mains.{Host, bar, dashes, save, time_of}

-- What the gateway does with the requests, the order in which they complete, the time that they
-- take, and how `:.1f` writes it.
pub record Workday : Type 0 where
  pub serve : Throughput.Service
  pub order : List ℕ
  pub elapsed : ℤ
  pub fixed1 : ℤ → Str

-- `NUM_EMPLOYEES`
abbrev pub num_employees : ℕ
num_employees = 30

abbrev header : Host → List Str
header h =
    (bar 60)
    ∷ (lit "🌟 Internal-assistant concurrent workload (direct mode)")
    ∷ (lit "   Gateway: " ++ h.gateway_url)
    ∷ (bar 60)
    ∷ []

abbrev sending : List Str
sending =
    (lit "\n👥 Sending "
      ++ show_ℕ num_employees
      ++ lit " requests across "
      ++ show_ℕ (length department_prompts)
      ++ lit " departments")
    ∷ (dashes 60)
    ∷ []

abbrev summary : Workday → ℕ → ℕ → List Str
summary w success_count fail_count =
    (bar 60)
    ∷ (lit "🎉 Workload complete.")
    ∷ (lit "   Wall time: " ++ w.fixed1 w.elapsed ++ lit "s")
    ∷ (lit "   Requests:  " ++ show_ℕ num_employees)
    ∷ (lit "   Success:   " ++ show_ℕ success_count)
    ∷ (lit "   Failed:    " ++ show_ℕ fail_count)
    ∷ (if fail_count == 0
        then lit "✅ All submitted requests completed in this run." ∷ bar 60 ∷ []
        else bar 60 ∷ [])

unfoldable pub main : Host → Workday → Script (Unit {0})
unfolding check_direct count_results
main h w = do
  say (header h)
  call Part.gateway (check_direct h.codec h.health)
  say sending
  (success_count, fail_count) ← call Part.workload (count_results h.codec w.serve w.order 0 0)
  say (summary w success_count fail_count)
  call Part.logs (save h (time_of Demo.qa h))
  say []
