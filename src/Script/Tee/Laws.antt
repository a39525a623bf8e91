-- ===== src/Script/Tee/Laws.antt =====
-- The log file against the console.
use mathlib.Core.List.{append_assoc}
use radixgates.Base.{
  ℕ, zero, suc, List, [], ◌∷◌, ◌++◌, Str, ◌≡◌, refl, ap, sym, ◌∙◌, ◌<◌, arith, append-nil,
}
use radixgates.Script.Tee.{Sink, write, write_all}

-- The second one follows the first: what it has is the start of what that has, and no less while
-- it is not broken.
abbrev pub Follows : Sink → Sink → Type 0
Follows log console = (rest : Str) × (console.text ≡ log.text ++ rest) × (0 < log.room → rest ≡ [])

-- one write, from the texts and the rooms of the two
Follows-step :
    (n m : ℕ) (shown logged s : Str)
    → Follows (record { text = logged; room = m }) (record { text = shown; room = n })
    → (console : Sink) × (log : Sink) × ((write
          (record { text = shown; room = n } ∷ record { text = logged; room = m } ∷ [])
          s).1
        ≡ console ∷ log ∷ [])
      × Follows log console
unfolding write
Follows-step zero m shown logged s h = (_, _, refl, h)
Follows-step (suc n) zero shown logged s (rest, e, _) = (
  _,
  _,
  refl,
  (rest ++ s, ap (λ t. t ++ s) e ∙ append_assoc logged rest s, λ lt. absurd (omega arith)),
)
Follows-step (suc n) (suc m) shown logged s (rest, e, none_left) = (
  _,
  _,
  refl,
  (
    [],
    ap (λ t. t ++ s) (e ∙ ap (λ r. logged ++ r) (none_left (omega arith)) ∙ append-nil logged)
        ∙ sym (append-nil (logged ++ s)),
    λ lt. refl,
  ),
)

-- Whatever is written, and whichever of the two files breaks at whatever moment, the log holds the
-- start of what the console shows, and all of it as long as the log itself can be written to.
pub write_all-Follows :
    (texts : List Str) (console log : Sink)
    → Follows log console
    → (console' : Sink) × (log' : Sink) × (write_all (console ∷ log ∷ []) texts
        ≡ console' ∷ log' ∷ [])
      × Follows log' console'
unfolding write_all
write_all-Follows [] console log h = (console, log, refl, h)
write_all-Follows (s ∷ texts) console log h =
    let (c, l, e, f) = Follows-step console.room log.room console.text log.text s h in
    let (c', l', e', f') = write_all-Follows texts c l f in
    (c', l', ap (λ ts. write_all ts texts) e ∙ e', f')
