-- ===== src/Demos/Gateway/Laws.antt =====
-- When a demo goes on past its check of the gateway.
use radixgates.Base.{
  ◌≡◌, refl, ◌↔◌, Str, lit, str_eq, if◌then◌else◌, Option, none, some, Option-cases, Bool-cases,
  inl, inr, ◌⊎◌, ◌∙◌, ap, sym, ℕ,
}
use radixgates.Base.Dict.{str_eq-eq, str_eq_iff}
use radixgates.Python.{Exc, Result, ok, raise, ◌>>=◌, or_raise, except, json_error, exit}
use radixgates.Python.Json.{
  Json, str, obj, null, bool, int, float, arr, Codec, get, find_field, Fields,
}
use radixgates.Python.Catch.{Catchable, >>=-Catchable, or_raise-Catchable, get-Catchable}
use mathlib.Core.Option.{none-ne-some, some-injective}
use radixgates.Throughput.{Reply, lost, reply}
use radixgates.Throughput.Laws.{IsCalm}
use radixgates.Demos.Gateway.{is_direct, check_direct}

-- The body is an object in which "mode" is "direct".
abbrev pub SaysDirect : Codec → Reply → Type 0
SaysDirect c (lost e) = ⊥
SaysDirect c (reply status body) =
    (fs : Fields) × (c.loads body ≡ some (obj fs))
    × (find_field (lit "mode") fs ≡ some (str (lit "direct")))

raise-ne-ok : (e : Exc) → ◌≡◌ {A = Result (Unit {0})} (raise e) (ok tt) → ⊥
raise-ne-ok e h = cc

str_injective : {s t : Str} → str s ≡ str t → s ≡ t
str_injective h = cc

obj_injective : {fs gs : Fields} → ◌≡◌ {A = Option Json} (some (obj fs)) (some (obj gs)) → fs ≡ gs
obj_injective h = cc

-- the end of the check, from the mode that was read
abbrev mode_verdict : Json → Result (Unit {0})
mode_verdict mode = if is_direct mode then ok tt else raise exit

mode_verdict_iff : (mode : Json) → (mode_verdict mode ≡ ok tt) ↔ (mode ≡ str (lit "direct"))
mode_verdict_iff (str s) = (
  λ h. elim (Bool-cases (str_eq s (lit "direct"))) [
    | inl e ↦ ap str (str_eq-eq s (lit "direct") e)
    | inr e ↦ absurd (raise-ne-ok exit (rw e at h))
  ],
  λ h. rw ((str_eq_iff s (lit "direct")).1 (str_injective h)),
)
mode_verdict_iff null = (λ h. absurd (cc), λ h. absurd (cc))
mode_verdict_iff (bool b) = (λ h. absurd (cc), λ h. absurd (cc))
mode_verdict_iff (int n) = (λ h. absurd (cc), λ h. absurd (cc))
mode_verdict_iff (float m e) = (λ h. absurd (cc), λ h. absurd (cc))
mode_verdict_iff (arr vs) = (λ h. absurd (cc), λ h. absurd (cc))
mode_verdict_iff (obj fs) = (λ h. absurd (cc), λ h. absurd (cc))

-- the whole check, from the decoded body
verdict : Option Json → Result (Unit {0})
verdict o =
    except
      ((or_raise o json_error >>= λ health. get health (lit "mode") (str (lit "unknown")))
        >>= mode_verdict)
      (λ _. raise exit)

check_direct-verdict :
    (c : Codec) (status : ℕ) (body : Str)
    → check_direct c (reply status body) ≡ verdict (c.loads body)
unfolding check_direct verdict
check_direct-verdict c status body = refl

abbrev Passes : Option Json → Type 0
Passes o =
    (fs : Fields) × (o ≡ some (obj fs)) × (find_field (lit "mode") fs ≡ some (str (lit "direct")))

verdict_obj :
    (fs : Fields) (mode : Json)
    → find_field (lit "mode") fs ≡ some mode
    → verdict (some (obj fs)) ≡ mode_verdict mode
unfolding verdict get
verdict_obj fs mode e = elim (Bool-cases (is_direct mode)) [
  | inl d ↦ rw (e, get) (rw d)
  | inr d ↦ rw (e, get) (rw d)
]

verdict_unknown :
    (fs : Fields) → find_field (lit "mode") fs ≡ none → verdict (some (obj fs)) ≡ raise exit
unfolding verdict get
verdict_unknown fs e = rw (e, get)

Passes-obj :
    (fs : Fields) → Passes (some (obj fs)) → find_field (lit "mode") fs ≡ some (str (lit "direct"))
Passes-obj fs (gs, same, found) = rw (obj_injective same) found

verdict_object_iff : (fs : Fields) → (verdict (some (obj fs)) ≡ ok tt) ↔ Passes (some (obj fs))
verdict_object_iff fs = elim (Option-cases (find_field (lit "mode") fs)) [
  | inl e ↦ (
    λ h. absurd (raise-ne-ok exit (sym (verdict_unknown fs e) ∙ h)),
    λ p. absurd (none-ne-some _ (sym e ∙ Passes-obj fs p)),
  )
  | inr (mode, e) ↦ (
    λ h.
        let direct = (mode_verdict_iff mode).0 (sym (verdict_obj fs mode e) ∙ h) in
        (fs, refl, e ∙ ap some direct),
    λ p.
        verdict_obj fs mode e
        ∙ (mode_verdict_iff mode).1 (some-injective _ _ (sym e ∙ Passes-obj fs p)),
  )
]

verdict_iff : (o : Option Json) → (verdict o ≡ ok tt) ↔ Passes o
unfolding verdict get
verdict_iff none = (λ h. absurd (cc), λ (fs, same, _). absurd (cc))
verdict_iff (some null) = (λ h. absurd (cc), λ (fs, same, _). absurd (cc))
verdict_iff (some (bool b)) = (λ h. absurd (cc), λ (fs, same, _). absurd (cc))
verdict_iff (some (int n)) = (λ h. absurd (cc), λ (fs, same, _). absurd (cc))
verdict_iff (some (float m e)) = (λ h. absurd (cc), λ (fs, same, _). absurd (cc))
verdict_iff (some (str s)) = (λ h. absurd (cc), λ (fs, same, _). absurd (cc))
verdict_iff (some (arr vs)) = (λ h. absurd (cc), λ (fs, same, _). absurd (cc))
verdict_iff (some (obj fs)) = verdict_object_iff fs

except_ends :
    (m : Result Json)
    → Catchable m
    → let r : Result (Unit {0}) = except (m >>= mode_verdict) (λ _. raise exit) in
      (r ≡ ok tt) ⊎ (r ≡ raise exit)
except_ends (raise e) k = inr (rw k)
except_ends (ok mode) k = elim (Bool-cases (is_direct mode)) [
  | inl e ↦ inl (rw e)
  | inr e ↦ inr (rw e)
]

-- Unless it is interrupted, the check of a demo that needs direct mode passes exactly if the body
-- says so, whatever the status, and ends the script by `sys.exit` in all other cases.
pub check_direct_iff :
    (c : Codec) (r : Reply)
    → IsCalm r
    → ((check_direct c r ≡ ok tt) ↔ SaysDirect c r)
      × ((check_direct c r ≡ ok tt) ⊎ (check_direct c r ≡ raise exit))
unfolding check_direct verdict
check_direct_iff c (lost e) calm =
    ((λ h. absurd (raise-ne-ok exit (rw calm at h)), λ h. absurd h), inr (rw calm))
check_direct_iff c (reply status body) calm = (
  verdict_iff (c.loads body),
  except_ends (or_raise (c.loads body) json_error >>= λ health. get health _ _) (
      >>=-Catchable (or_raise (c.loads body) json_error) _ (or_raise-Catchable _ json_error refl)
        λ health. get-Catchable health (lit "mode") (str (lit "unknown"))),
)
