-- ===== src/Plot/Load/Window.antt =====
-- The times of the fault are read back from what benchmarks/scripts/run_sim.sh writes.
use radixgates.Base.{
  ℕ, ◌+◌, ◌-◌, ◌*◌, ◌≤◌, ◌≡◌, refl, sym, ◌∙◌, ap, [], ◌∷◌, ◌++◌, append_assoc, Str, lit, true,
  false, starts_with, length, length-append, none, some, All, arith,
}
use radixgates.Servers.Search.{is_digit}
use radixgates.Servers.Search.Grammar.{value, Some, Ends}
use radixgates.Plot.Load.{after_text, digits_of, number_of, window_at, fault_window}

after_text-append : (p s : Str) → after_text p (p ++ s) ≡ some s
after_text-append [] s = refl
after_text-append (d ∷ p) s = ground (arith, after_text-append p s)

after_text-none : (p s : Str) → starts_with s p ≡ false → after_text p s ≡ none
after_text-none [] s h = absurd (cc)
after_text-none (d ∷ p) [] h = refl
after_text-none (d ∷ p) (c ∷ s) h = ground (arith, after_text-none p s)

starts_with-append : (p s t : Str) → length p ≤ length s → starts_with (s ++ t) p ≡ starts_with s p
starts_with-append [] s t h = refl
starts_with-append (d ∷ p) [] t h = absurd (omega arith)
starts_with-append (d ∷ p) (c ∷ s) t h = ground (arith, starts_with-append p s t)

digits_of-append :
    (n : ℕ) (digits rest : Str)
    → All (λ c. is_digit c ≡ true) digits
    → Ends is_digit rest
    → digits_of n (digits ++ rest) ≡ (value n digits, rest)
digits_of-append n [] [] h e = refl
digits_of-append n [] (c ∷ rest) h e = rw e refl
digits_of-append n (c ∷ digits) rest h e =
    rw h.0 (digits_of-append (10 * n + (c - 48)) digits rest h.1 e)

number_of-append :
    (digits rest : Str)
    → Some is_digit digits
    → Ends is_digit rest
    → number_of (digits ++ rest) ≡ some (value 0 digits, rest)
number_of-append [] rest h e = absurd (omega (arith, h.0))
number_of-append (c ∷ digits) rest h e =
    rw h.1.0 (ap some (digits_of-append (10 * 0 + (c - 48)) digits rest h.1.1 e))

abbrev pub mark : Str
mark = lit "fault at "

-- No place in the text begins the mark, not even together with one that follows it.
abbrev pub LacksMark : Str → Type 0
LacksMark [] = Unit
LacksMark (c ∷ s) = (starts_with ((c ∷ s) ++ mark) mark ≡ false) × LacksMark s

abbrev pub window_text : Str → Str → Str → Str
window_text a b rest = mark ++ (a ++ (lit "s, recover at " ++ (b ++ (115 ∷ rest))))

window_at-text :
    (a b rest : Str)
    → Some is_digit a
    → Some is_digit b
    → window_at (window_text a b rest) ≡ some (value 0 a, value 0 b)
unfolding window_at
window_at-text a b rest ha hb =
    rw
      (
        number_of-append a (lit "s, recover at " ++ (b ++ (115 ∷ rest))) ha refl,
        number_of-append b (115 ∷ rest) hb refl,
      )
      refl

first_window : (s : Str) (w : ℕ × ℕ) → window_at s ≡ some w → fault_window s ≡ some w
unfolding fault_window window_at
first_window [] w e = absurd (cc)
first_window (c ∷ s) w e = rw e refl

window_at-absent : (s : Str) → after_text mark s ≡ none → window_at s ≡ none
unfolding window_at
window_at-absent s e = rw e refl

window_at-none :
    (c : ℕ) (s t : Str)
    → starts_with ((c ∷ s) ++ mark) mark ≡ false
    → window_at (((c ∷ s) ++ mark) ++ t) ≡ none
window_at-none c s t h =
    let longer : length mark ≤ length ((c ∷ s) ++ mark) =
      let e = length-append (c ∷ s) mark in omega (arith, e) in
    window_at-absent (((c ∷ s) ++ mark) ++ t) (
      after_text-none mark (((c ∷ s) ++ mark) ++ t)
        (starts_with-append mark ((c ∷ s) ++ mark) t longer ∙ h))

-- `fault_window` finds the times in the text that run_sim.sh writes, whatever stands before and
-- after it, if no "fault at " begins before.
pub fault_window-text :
    (before a b rest : Str)
    → LacksMark before
    → Some is_digit a
    → Some is_digit b
    → fault_window (before ++ window_text a b rest) ≡ some (value 0 a, value 0 b)
unfolding fault_window
fault_window-text [] a b rest h ha hb =
    first_window (window_text a b rest) _ (window_at-text a b rest ha hb)
fault_window-text (c ∷ before) a b rest h ha hb =
    let tail = a ++ (lit "s, recover at " ++ (b ++ (115 ∷ rest))) in
    let here =
      ap window_at (sym (append_assoc (c ∷ before) mark tail)) ∙ window_at-none c before tail h.0 in
    rw here (fault_window-text before a b rest h.1 ha hb)
