-- ===== src/Servers/Ep/Laws.antt =====
-- What the third source of the check of expert parallelism is worth.
use radixgates.Base.{◌≡◌, ap, sym, ◌∙◌, Bool, Str}
use radixgates.Python.{ok_injective, ok, >>=-eq-ok}
use radixgates.Python.Json.{Codec}
use radixgates.Throughput.{Reply}
use radixgates.Servers.{Files}
use radixgates.Servers.Ep.{
  Sizes, EpReport, known_sizes, confirms, moe_of_info, report_of, check_ep_active,
}

report_of-parts :
    (s : Sizes) (moe : Bool) (r : EpReport)
    → report_of s moe ≡ ok r
    → (s ≡ r.sizes) × (confirms s.ep ≡ ok r.ep_confirmed)
unfolding report_of
report_of-parts s moe r e =
    let (b, eb, e₁) = >>=-eq-ok (confirms s.ep) _ e in
    let same = ok_injective e₁ in
    (ap (λ (x : EpReport). x.sizes) same, eb ∙ ap (λ (x : EpReport). ok x.ep_confirmed) same)

check_ep_active-parts :
    (c : Codec) (args info : Reply) (files : Files) (sglang_log : Str) (r : EpReport)
    → check_ep_active c args files sglang_log info ≡ ok r
    → (known_sizes c args files sglang_log ≡ ok r.sizes) × (confirms r.sizes.ep ≡ ok r.ep_confirmed)
unfolding check_ep_active
check_ep_active-parts c args info files sglang_log r e =
    let (s, es, e₁) = >>=-eq-ok (known_sizes c args files sglang_log) _ e in
    let (moe, _, e₂) = >>=-eq-ok (moe_of_info c info) _ e₁ in
    let (same, confirmed) = report_of-parts s moe r e₂ in
    (es ∙ ap ok same, ap (λ (x : Sizes). confirms x.ep) (sym same) ∙ confirmed)

-- Whenever the check ends with a result for two replies of /get_model_info, it finds the same sizes
-- and confirms expert parallelism for both or for neither.
check_ep_active-info :
    (c : Codec) (args info info' : Reply) (files : Files) (sglang_log : Str) (r r' : EpReport)
    → check_ep_active c args files sglang_log info ≡ ok r
    → check_ep_active c args files sglang_log info' ≡ ok r'
    → (r.sizes ≡ r'.sizes) × (r.ep_confirmed ≡ r'.ep_confirmed)
check_ep_active-info c args info info' files sglang_log r r' e e' =
    let (k, f) = check_ep_active-parts c args info files sglang_log r e in
    let (k', f') = check_ep_active-parts c args info' files sglang_log r' e' in
    let same = ok_injective (sym k ∙ k') in
    (same, ok_injective (sym f ∙ ap (λ (x : Sizes). confirms x.ep) same ∙ f'))
