-- ===== src/Base/Strip.antt =====
-- Stripping and splitting of texts.
use Prim.Native.Nat.{ℕ, ◌≤◌}
use mathlib.Core.Path.{◌≡◌, refl}
use mathlib.Core.Bool.{Bool, true, false}
use mathlib.Core.List.{[], ◌∷◌, ◌++◌, reverse, reverse-cons, reverse-reverse, reverse-append}
use native.Mathlib.Omega.{arith}
use radixgates.Base.Tests.{◌==◌}
use radixgates.Base.Lists.{All, All-append}
use radixgates.Base.Text.{Str, is_space, lstrip_by, rstrip_by, strip_by, strip, split_on}

module _ (p : ℕ → Bool) where
  -- No character of the text is stripped.
  abbrev pub Without : Str → Type 0
  Without = All (λ c. p c ≡ false)

  reverse-Without : (s : Str) → Without s → Without (reverse s)
  reverse-Without [] h = tt
  reverse-Without (c ∷ s) h =
      rw (reverse-cons c s) (All-append _ (reverse s) (c ∷ []) (reverse-Without s h.1) (h.0, tt))

  lstrip_by-Without : (s : Str) → Without s → lstrip_by p s ≡ s
  unfolding lstrip_by
  lstrip_by-Without [] h = refl
  lstrip_by-Without (c ∷ s) h = rw h.0

  pub strip_by-Without : (s : Str) → Without s → strip_by p s ≡ s
  unfolding strip_by rstrip_by
  strip_by-Without s h =
      rw (lstrip_by-Without s h, lstrip_by-Without (reverse s) (reverse-Without s h))
        (reverse-reverse s)

  lstrip_by-last :
      (q : ℕ) (c : ℕ) (s : Str)
      → Without (c ∷ s)
      → lstrip_by p ((c ∷ s) ++ (q ∷ [])) ≡ (c ∷ s) ++ (q ∷ [])
  unfolding lstrip_by
  lstrip_by-last q c s h = rw h.0

  -- A character that is stripped goes from both ends.
  pub strip_by-around :
      (q : ℕ) (s : Str) → p q ≡ true → Without s → strip_by p (q ∷ s ++ (q ∷ [])) ≡ s
  unfolding strip_by rstrip_by lstrip_by
  strip_by-around q [] e h = rw e
  strip_by-around q (c ∷ s) e h =
      rw (e, h.0, reverse-append (c ∷ s) (q ∷ []), e)
        (rw (lstrip_by-Without (reverse (c ∷ s)) (reverse-Without (c ∷ s) h))
          (reverse-reverse (c ∷ s)))

pub strip-Without : (s : Str) → Without is_space s → strip s ≡ s
unfolding strip
strip-Without s h = strip_by-Without is_space s h

-- A blank in front makes no difference.
pub strip-blank : (s : Str) → strip (32 ∷ s) ≡ strip s
unfolding strip strip_by lstrip_by is_space
strip-blank s = refl

pub is_space-digit : (c : ℕ) → 48 ≤ c → c ≤ 57 → is_space c ≡ false
unfolding is_space
is_space-digit c l h = ground arith

module _ (sep : ℕ) where
  pub split_on-piece :
      (s t : Str) → Without (λ c. c == sep) s → split_on sep (s ++ (sep ∷ t)) ≡ s ∷ split_on sep t
  unfolding split_on
  split_on-piece [] t h = rw (same sep)
    where
      same : (n : ℕ) → (n == n) ≡ true
      same n = ground arith
  split_on-piece (c ∷ s) t h = rw (h.0, split_on-piece s t h.1)

  pub split_on-last : (s : Str) → Without (λ c. c == sep) s → split_on sep s ≡ s ∷ []
  unfolding split_on
  split_on-last [] h = refl
  split_on-last (c ∷ s) h = rw (h.0, split_on-last s h.1)
