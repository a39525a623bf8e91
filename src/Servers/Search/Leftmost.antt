-- ===== src/Servers/Search/Leftmost.antt =====
-- The searches find exactly the leftmost match of the patterns.
use mathlib.Core.Option.{none-ne-some}
use radixgates.Base.{
  ◌⊎◌, ℕ, ◌≡◌, refl, ap, sym, ◌∙◌, ◌↔◌, [], ◌∷◌, ◌++◌, Str, lit, Bool, true, false, Option, none,
  some, Option-cases, inl, inr,
}
use radixgates.Servers.Search.{
  is_word_char, after_word, after_dash, after_signs, number_at, then_at, short_at, long_at,
  first_match, search_from, search_size,
}
use radixgates.Servers.Search.Grammar.{Short, Long, Leftmost, short, long, later}
use radixgates.Servers.Search.Pieces.{
  after_word-Spells, Spells-after_word, after_dash_cases, after_signs_cases, after_signs-append,
  number_at-Number, Number-number_at, Number-Ends,
}

first_match_cases :
    {A : Type 0} (o p : Option A) (a : A)
    → first_match o p ≡ some a
    → (o ≡ some a) ⊎ ((o ≡ none) × (p ≡ some a))
first_match_cases none p a e = inr (refl, e)
first_match_cases (some b) p a e = inl e

-- Inversion of a step after a piece.
then_at_cases :
    {A : Type 0} (o : Option Str) (k : Str → Option A) (a : A)
    → then_at o k ≡ some a
    → (s : Str) × (o ≡ some s) × (k s ≡ some a)
then_at_cases none k a e = absurd (none-ne-some _ e)
then_at_cases (some s) k a e = (s, refl, e)

short_at-Short : (name s : Str) (b : Bool) (n : ℕ) → short_at name b s ≡ some n → Short name b s n
unfolding short_at
short_at-Short name s true n e = absurd (none-ne-some _ e)
short_at-Short name s false n e =
    let (t, et, en) = then_at_cases (after_word name s) number_at n e in
    let (w, q, h) = after_word-Spells name s t et in (refl, w, t, q, h, number_at-Number t n en)

Short-short_at : (name s : Str) (b : Bool) (n : ℕ) → Short name b s n → short_at name b s ≡ some n
unfolding short_at
Short-short_at name s b n (nb, w, t, q, h, num) =
    rw (nb, q, Spells-after_word name w t h) (Number-number_at t n num)

-- the pieces of a match, put together
joined :
    {s s₁ s₂ s₃ s₄ s₅ : Str} (u v w signs t : Str) (c d : ℕ)
    → s ≡ u ++ s₁
    → s₁ ≡ c ∷ s₂
    → s₂ ≡ v ++ s₃
    → s₃ ≡ d ∷ s₄
    → s₄ ≡ w ++ s₅
    → s₅ ≡ signs ++ t
    → s ≡ u ++ (c ∷ (v ++ (d ∷ (w ++ (signs ++ t)))))
joined u v w signs t c d q₁ q₂ q₃ q₄ q₅ q₆ =
    q₁
    ∙ ap (λ l. u ++ l)
        (q₂
          ∙ ap (λ l. c ∷ l)
              (q₃ ∙ ap (λ l. v ++ l) (q₄ ∙ ap (λ l. d ∷ l) (q₅ ∙ ap (λ l. w ++ l) q₆))))

long_at-Long : (kind s : Str) (n : ℕ) → long_at kind s ≡ some n → Long kind s n
unfolding long_at
long_at-Long kind s n e =
    let (s₁, e₁, r₁) = then_at_cases (after_word kind s) _ n e in
    let (s₂, e₂, r₂) = then_at_cases (after_dash s₁) _ n r₁ in
    let (s₃, e₃, r₃) = then_at_cases (after_word (lit "parallel") s₂) _ n r₂ in
    let (s₄, e₄, r₄) = then_at_cases (after_dash s₃) _ n r₃ in
    let (s₅, e₅, r₅) = then_at_cases (after_word (lit "size") s₄) _ n r₄ in
    let (t, e₆, r₆) = then_at_cases (after_signs s₅) number_at n r₅ in
    let (u, q₁, h₁) = after_word-Spells kind s s₁ e₁ in
    let (c, q₂, h₂) = after_dash_cases s₁ s₂ e₂ in
    let (v, q₃, h₃) = after_word-Spells (lit "parallel") s₂ s₃ e₃ in
    let (d, q₄, h₄) = after_dash_cases s₃ s₄ e₄ in
    let (w, q₅, h₅) = after_word-Spells (lit "size") s₄ s₅ e₅ in
    let (signs, q₆, h₆) = after_signs_cases s₅ t e₆ in
    (
      u,
      v,
      w,
      signs,
      t,
      c,
      d,
      joined u v w signs t c d q₁ q₂ q₃ q₄ q₅ q₆,
      h₁,
      h₂,
      h₃,
      h₄,
      h₅,
      h₆,
      number_at-Number t n r₆,
    )

Long-long_at : (kind s : Str) (n : ℕ) → Long kind s n → long_at kind s ≡ some n
unfolding long_at
Long-long_at kind s n (u, v, w, signs, t, c, d, q, h₁, h₂, h₃, h₄, h₅, h₆, num) =
    rw
      (
        q,
        Spells-after_word kind u _ h₁,
        h₂,
        Spells-after_word (lit "parallel") v _ h₃,
        h₄,
        Spells-after_word (lit "size") w _ h₅,
        after_signs-append signs t h₆ (Number-Ends t n num),
      )
      (Number-number_at t n num)

-- Nothing matches at the end.
short_at-nil : (name : Str) (b : Bool) → short_at name b [] ≡ none
unfolding short_at
short_at-nil name true = refl
short_at-nil [] false = refl
short_at-nil (d ∷ name) false = refl

long_at-nil : (kind : Str) → long_at kind [] ≡ none
unfolding long_at
long_at-nil [] = refl
long_at-nil (d ∷ kind) = refl

module _ (name kind : Str) where
  not-Short : {b : Bool} {s : Str} → short_at name b s ≡ none → (m : ℕ) → Short name b s m → ⊥
  not-Short {b} {s} e m h = none-ne-some _ (sym e ∙ Short-short_at name s b m h)

  not-Long : {s : Str} → long_at kind s ≡ none → (m : ℕ) → Long kind s m → ⊥
  not-Long {s} e m h = none-ne-some _ (sym e ∙ Long-long_at kind s m h)

  search_from-Leftmost :
      (b : Bool) (s : Str) (n : ℕ) → search_from name kind b s ≡ some n → Leftmost name kind b s n
  unfolding search_from
  search_from-Leftmost b [] n e = absurd (none-ne-some _ e)
  search_from-Leftmost b (c ∷ s) n e = elim (first_match_cases (short_at name b (c ∷ s)) _ n e) [
    | inl es ↦ short (short_at-Short name (c ∷ s) b n es)
    | inr (es, r) ↦ elim (first_match_cases (long_at kind (c ∷ s)) _ n r) [
      | inl el ↦ long (not-Short es) (long_at-Long kind (c ∷ s) n el)
      | inr (el, r) ↦
          later (not-Short es) (not-Long el) (search_from-Leftmost (is_word_char c) s n r)
    ]
  ]

  short_at-none : (b : Bool) (s : Str) → ((m : ℕ) → Short name b s m → ⊥) → short_at name b s ≡ none
  short_at-none b s absent = elim (Option-cases (short_at name b s)) [
    | inl e ↦ e
    | inr (m, e) ↦ absurd (absent m (short_at-Short name s b m e))
  ]

  long_at-none : (s : Str) → ((m : ℕ) → Long kind s m → ⊥) → long_at kind s ≡ none
  long_at-none s absent = elim (Option-cases (long_at kind s)) [
    | inl e ↦ e
    | inr (m, e) ↦ absurd (absent m (long_at-Long kind s m e))
  ]

  search_from-short :
      (b : Bool) (s : Str) (n : ℕ) → short_at name b s ≡ some n → search_from name kind b s ≡ some n
  unfolding search_from
  search_from-short b [] n e = absurd (none-ne-some _ (sym (short_at-nil name b) ∙ e))
  search_from-short b (c ∷ s) n e = rw e refl

  search_from-long :
      (b : Bool) (s : Str) (n : ℕ)
      → short_at name b s ≡ none
      → long_at kind s ≡ some n
      → search_from name kind b s ≡ some n
  unfolding search_from
  search_from-long b [] n es e = absurd (none-ne-some _ (sym (long_at-nil kind) ∙ e))
  search_from-long b (c ∷ s) n es e = rw (es, e) refl

  search_from-later :
      (b : Bool) (c : ℕ) (s : Str) (n : ℕ)
      → short_at name b (c ∷ s) ≡ none
      → long_at kind (c ∷ s) ≡ none
      → search_from name kind (is_word_char c) s ≡ some n
      → search_from name kind b (c ∷ s) ≡ some n
  unfolding search_from
  search_from-later b c s n es el e = rw (es, el) e

  Leftmost-search_from :
      (b : Bool) (s : Str) (n : ℕ) → Leftmost name kind b s n → search_from name kind b s ≡ some n
  Leftmost-search_from b s n (short m) = search_from-short b s n (Short-short_at name s b n m)
  Leftmost-search_from b s n (long absent m) =
      search_from-long b s n (short_at-none b s absent) (Long-long_at kind s n m)
  Leftmost-search_from b (c ∷ s) n (later absent missing m) =
      search_from-later b c s n (short_at-none b (c ∷ s) absent) (long_at-none (c ∷ s) missing)
        (Leftmost-search_from (is_word_char c) s n m)

-- For every name, every first word and every text, the search finds a number exactly when the text
-- has a match of one of the two patterns, and then finds the number of the leftmost match, the
-- first pattern before the second; the boundary stands for a word character just before.
pub search_size_iff :
    (name kind content : Str) (n : ℕ)
    → (search_size name kind content ≡ some n) ↔ Leftmost name kind false content n
unfolding search_size
search_size_iff name kind content n =
    (search_from-Leftmost name kind false content n, Leftmost-search_from name kind false content n)
