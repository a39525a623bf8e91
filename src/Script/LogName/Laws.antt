-- ===== src/Script/LogName/Laws.antt =====
-- The time is read back from the path of the log.
use radixgates.Base.{
  ℕ, zero, suc, ◌-◌, [], ◌∷◌, ◌++◌, Str, lit, true, false, ◌||◌, any, All, All-append, All-map,
  ◌==◌, ◌≡◌, refl, ap, sym, ◌∙◌, length, starts_with, arith, append-nil,
}
use radixgates.Hardware.{is_digit}
use radixgates.Base.Strip.{Without}
use radixgates.Script.LogName.{
  Demo, pd, tp, ep, dp, qa, streaming, name_of, log_path, basename, remove, time_in,
}

-- `%Y%m%d_%H%M%S` gives digits and "_".
abbrev pub IsStamp : Str → Type 0
IsStamp = All (λ c. (is_digit c || c == 95) ≡ true)

any-Without : (d : ℕ) (s : Str) → Without (λ c. c == d) s → any (λ c. c == d) s ≡ false
any-Without d [] h = refl
any-Without d (c ∷ s) h = ground (arith, any-Without d s h.1)

basename-Without : (s : Str) → Without (λ c. c == 47) s → basename s ≡ s
unfolding basename
basename-Without [] h = refl
basename-Without (c ∷ s) h = rw (any-Without 47 (c ∷ s) h)

any-slash : (s t : Str) → any (λ c. c == 47) (s ++ (47 ∷ t)) ≡ true
any-slash [] t = refl
any-slash (c ∷ s) t = ground (arith, any-slash s t)

basename-join : (dir s : Str) → Without (λ c. c == 47) s → basename (dir ++ (47 ∷ s)) ≡ s
unfolding basename
basename-join [] s h = basename-Without s h
basename-join (c ∷ dir) s h = rw (any-slash (c ∷ dir) s) (basename-join dir s h)

-- before the first character of what is removed, everything is kept
remove-before :
    (d : ℕ) (p s t : Str)
    → Without (λ c. c == d) s
    → remove zero (d ∷ p) (s ++ t) ≡ s ++ remove zero (d ∷ p) t
unfolding remove
remove-before d p [] t h = refl
remove-before d p (c ∷ s) t h = rw h.0 (ap (λ l. c ∷ l) (remove-before d p s t h.1))

remove-skip : (p s t : Str) → remove (length s) p (s ++ t) ≡ remove zero p t
unfolding remove
remove-skip p [] t = refl
remove-skip p (c ∷ s) t = remove-skip p s t

starts_with-append : (p s : Str) → starts_with (p ++ s) p ≡ true
starts_with-append [] [] = refl
starts_with-append [] (c ∷ s) = refl
starts_with-append (c ∷ p) s = ground (arith, starts_with-append p s)

remove-first : (d : ℕ) (p t : Str) → remove zero (d ∷ p) (d ∷ (p ++ t)) ≡ remove zero (d ∷ p) t
unfolding remove
remove-first d p t =
    rw (starts_with-append (d ∷ p) t)
      (ap (λ n. remove n (d ∷ p) (p ++ t)) (less_one (length p)) ∙ remove-skip (d ∷ p) p t)
  where
    less_one : (n : ℕ) → suc n - 1 ≡ n
    less_one n = omega arith

remove-Without : (d : ℕ) (p s : Str) → Without (λ c. c == d) s → remove zero (d ∷ p) s ≡ s
unfolding remove
remove-Without d p s h =
    ap (remove zero (d ∷ p)) (sym (append-nil s)) ∙ remove-before d p s [] h ∙ append-nil s

-- where a first character that is neither of a time nor of ".log" cannot be
IsStamp-Without :
    (d : ℕ) (s : Str) → (is_digit d || d == 95) ≡ false → IsStamp s → Without (λ c. c == d) s
IsStamp-Without d s h stamp = All-map _ _ s (λ c e. other c e) stamp
  where
    other : (c : ℕ) → (is_digit c || c == 95) ≡ true → (c == d) ≡ false
    other c e = ground arith

-- the time that is left of a name of a log
time_left :
    (d : ℕ) (name stamp : Str)
    → (is_digit d || d == 95) ≡ false
    → Without (λ c. c == d) (lit ".log")
    → IsStamp stamp
    → remove zero (lit ".log") (remove zero (d ∷ name) (d ∷ (name ++ (stamp ++ lit ".log"))))
      ≡ stamp
unfolding remove
time_left d name stamp h dot stamped =
    ap (remove zero (lit ".log")) (
      remove-first d name (stamp ++ lit ".log")
      ∙ remove-Without d name (stamp ++ lit ".log")
          (All-append _ stamp (lit ".log") (IsStamp-Without d stamp h stamped) dot))
    ∙ remove-before 46 (lit "log") stamp (lit ".log")
        (IsStamp-Without 46 stamp (ground arith) stamped)
    ∙ append-nil stamp

-- the same for each of the scripts
name-time :
    (d : Demo) (stamp : Str)
    → IsStamp stamp
    → remove zero
        (lit ".log")
        (remove zero (name_of d ++ lit "_") (name_of d ++ (95 ∷ (stamp ++ lit ".log"))))
      ≡ stamp
name-time pd stamp h = time_left 112 (lit "d_demo_") stamp refl (ground arith) h
name-time tp stamp h = time_left 116 (lit "p_demo_") stamp refl (ground arith) h
name-time ep stamp h = time_left 101 (lit "p_demo_") stamp refl (ground arith) h
name-time dp stamp h = time_left 100 (lit "p_demo_") stamp refl (ground arith) h
name-time qa stamp h = time_left 101 (lit "nterprise_qa_demo_") stamp refl (ground arith) h
name-time streaming stamp h = time_left 115 (lit "treaming_demo_") stamp refl (ground arith) h

name-slash : (d : Demo) → Without (λ c. c == 47) (name_of d)
name-slash pd = ground arith
name-slash tp = ground arith
name-slash ep = ground arith
name-slash dp = ground arith
name-slash qa = ground arith
name-slash streaming = ground arith

-- The time in the path of a script's log is the one that the path was made from, for every
-- directory and every time that consists of digits and "_".
pub time_in-log_path :
    (d : Demo) (log_dir stamp : Str) → IsStamp stamp → time_in d (log_path d log_dir stamp) ≡ stamp
unfolding time_in log_path
time_in-log_path d log_dir stamp h =
    ap (λ s. remove zero (lit ".log") (remove zero (name_of d ++ lit "_") s))
      (basename-join log_dir (name_of d ++ (95 ∷ (stamp ++ lit ".log"))) (
        All-append _ (name_of d) _ (name-slash d)
          (refl, All-append _ stamp (lit ".log") (IsStamp-Without 47 stamp refl h) (ground arith))))
    ∙ name-time d stamp h
