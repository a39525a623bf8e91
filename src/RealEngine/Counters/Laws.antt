-- ===== src/RealEngine/Counters/Laws.antt =====
-- Which number is read from the metrics of a worker.
use radixgates.Base.{
  ◌==◌, ℕ, ◌≡◌, refl, ap, ◌∙◌, List, [], ◌∷◌, ◌++◌, some, Bool, true, false, ◌||◌, any, Str,
  starts_with, splitlines, lines_from, is_line_end, is_space, cons_head, All, arith,
}
use radixgates.Python.{or_raise, value_error}
use radixgates.RealEngine.Counters.{
  begins_word, split, last_item, next_with, counter_name, Floats, counter_in,
}

line_end-space : (c : ℕ) → is_space c ≡ false → is_line_end c ≡ false
unfolding is_space is_line_end
line_end-space c e = ground arith

return_end : (c : ℕ) → is_line_end c ≡ false → (c == 13) ≡ false
unfolding is_line_end
return_end c e = ground arith

either_false : (a b : Bool) → (a || b) ≡ false → (a ≡ false) × (b ≡ false)
either_false true b e = absurd (cc)
either_false false b e = (refl, e)

any-line_end : (s : Str) → any is_space s ≡ false → any is_line_end s ≡ false
any-line_end [] e = refl
any-line_end (c ∷ s) e =
    let (first, others) = either_false (is_space c) (any is_space s) e in
    rw (line_end-space c first) (any-line_end s others)

lines_from-line :
    (line rest : Str)
    → any is_line_end line ≡ false
    → lines_from false (line ++ (10 ∷ rest)) ≡ line ∷ lines_from false rest
unfolding lines_from is_line_end
lines_from-line [] rest e = refl
lines_from-line (c ∷ line) rest e =
    let (first, others) = either_false (is_line_end c) (any is_line_end line) e in
    rw (first, return_end c first, lines_from-line line rest others) refl

split_cons :
    (c : ℕ) (s : Str)
    → is_space c ≡ false
    → begins_word s ≡ true
    → split (c ∷ s) ≡ cons_head c (split s)
unfolding split
split_cons c s e b = rw (e, b) refl

split-word : (c : ℕ) (s : Str) → any is_space (c ∷ s) ≡ false → split (c ∷ s) ≡ (c ∷ s) ∷ []
unfolding split
split-word c [] e = rw (either_false (is_space c) false e).0 refl
split-word c (d ∷ s) e =
    let (first, others) = either_false (is_space c) (any is_space (d ∷ s)) e in
    let next = (either_false (is_space d) (any is_space s) others).0 in
    split_cons c (d ∷ s) first (rw next refl) ∙ ap (cons_head c) (split-word d s others)

-- The lines before the counter.
abbrev pub IsOther : Str → Type 0
IsOther line = (any is_line_end line ≡ false) × (starts_with line counter_name ≡ false)

abbrev pub page : List Str → Str → Str
page [] rest = rest
page (line ∷ lines) rest = line ++ (10 ∷ page lines rest)

abbrev pub counter_line : Str → Str
counter_line value = counter_name ++ (32 ∷ value)

next_with-page :
    (lines : List Str) (value rest : Str)
    → any is_line_end value ≡ false
    → All IsOther lines
    → next_with
        (λ l. starts_with l counter_name)
        (lines_from false (page lines (counter_line value ++ (10 ∷ rest))))
      ≡ some (counter_line value)
unfolding is_line_end
next_with-page [] value rest v h = rw (lines_from-line (counter_line value) rest v) refl
next_with-page (line ∷ lines) value rest v h =
    rw (lines_from-line line (page lines (counter_line value ++ (10 ∷ rest))) h.0.0, h.0.1)
      (next_with-page lines value rest v h.1)

last_item-counter_line :
    (c : ℕ) (s : Str)
    → any is_space (c ∷ s) ≡ false
    → last_item (split (counter_line (c ∷ s))) ≡ some (c ∷ s)
unfolding split is_space
last_item-counter_line c s e = rw (split-word c s e) refl

-- The counter that is read from a worker's metrics is the number in the first line that begins with
-- its name: for all lines before, none of which begins with it, such as the comments that describe
-- it, for every number without white space in it, and whatever follows.
pub counter_in-page :
    (floats : Floats) (lines : List Str) (c : ℕ) (value rest : Str)
    → All IsOther lines
    → any is_space (c ∷ value) ≡ false
    → counter_in floats (page lines (counter_line (c ∷ value) ++ (10 ∷ rest)))
      ≡ or_raise (floats (c ∷ value)) value_error
unfolding counter_in splitlines
counter_in-page floats lines c value rest h e =
    rw
      (
        next_with-page lines (c ∷ value) rest (any-line_end (c ∷ value) e) h,
        last_item-counter_line c value e,
      )
      refl
