-- ===== src/Lmdd/Arguments/Numbers.antt =====
-- The numbers that `getarg` of lmbench3/src/lmdd.c reads.
use mathlib.Core.List.{append_assoc}
use mathlib.Core.Path.{ap₂}
use repo_support_tools.Base.{
  ℕ, ◌+◌, ◌-◌, ◌*◌, ◌%◌, ◌^◌, ◌≡◌, true, false, ◌&&◌, ◌||◌, List, [], ◌∷◌, ◌++◌, length, drop, ◌==◌,
  leb, All, refl, sym, ap, ◌∙◌, arith,
}
use repo_support_tools.Base.Text.{codes, starts_with, last_char, isdigit, value, leading, atol}
use repo_support_tools.Lmdd.Arguments.{scale, arg_value, getarg_from, getarg}

abbrev pub AreDigits : List ℕ → Type 0
AreDigits = All (λ c. isdigit c ≡ true)

leading-digits :
    (n c : ℕ) (digits rest : List ℕ)
    → AreDigits digits
    → isdigit c ≡ false
    → leading n (digits ++ (c ∷ rest)) ≡ value n digits
unfolding leading
leading-digits n c [] rest h e = rw e refl
leading-digits n c (d ∷ digits) rest h e =
    rw (h.0) (leading-digits (n * 10 + (d - 48)) c digits rest h.1 e)

atol-digits :
    (c d : ℕ) (digits : List ℕ)
    → AreDigits (d ∷ digits)
    → isdigit c ≡ false
    → atol (d ∷ digits ++ (c ∷ [])) ≡ value 0 (d ∷ digits) % 2 ^ 64
unfolding atol
atol-digits c d digits h e =
    let no_blank : ((d == 32) || (leb 9 d && leb d 13)) ≡ false = ground (arith, h.0) in
    let no_minus : (d == b'-') ≡ false = ground (arith, h.0) in
    let no_plus : (d == b'+') ≡ false = ground (arith, h.0) in
    rw (no_blank, no_minus, no_plus) (ap (λ x. x % 2 ^ 64) (leading-digits 0 c (d ∷ digits) [] h e))

last_char-append : (s : List ℕ) (c : ℕ) → last_char (s ++ (c ∷ [])) ≡ c
last_char-append [] c = refl
last_char-append (d ∷ []) c = refl
last_char-append (d ∷ e ∷ s) c = last_char-append (e ∷ s) c

last_char-append_all : (s t : List ℕ) (c : ℕ) → last_char (s ++ (t ++ (c ∷ []))) ≡ c
last_char-append_all s t c =
    ap last_char (sym (append_assoc s t (c ∷ []))) ∙ last_char-append (s ++ t) c

starts_with-append : (p s : List ℕ) → starts_with p (p ++ s) ≡ true
starts_with-append [] s = refl
starts_with-append (c ∷ p) s =
    let same : (c == c) ≡ true = ground arith in rw same (starts_with-append p s)

drop-append : (p s : List ℕ) → drop (length p) (p ++ s) ≡ s
drop-append [] s = refl
drop-append (c ∷ p) s = drop-append p s

module _ (address : ℕ → ℕ) where
  getarg_from-skip :
      (s : List ℕ) (i : ℕ) (before : List (List ℕ)) (arg : List ℕ) (after : List (List ℕ))
      → All (λ a. starts_with s a ≡ false) before
      → starts_with s arg ≡ true
      → getarg_from address s i (before ++ (arg ∷ after))
        ≡ arg_value address s (i + length before) arg
  unfolding getarg_from
  getarg_from-skip s i [] arg after h found =
      rw found (ap (λ k. arg_value address s k arg) (omega arith))
  getarg_from-skip s i (b ∷ before) arg after h found = rw h.0 (
      getarg_from-skip s (i + 1) before arg after h.1 found
      ∙ ap (λ k. arg_value address s k arg) (omega arith))

  -- Of the arguments that begin with the name that is asked for, `getarg` reads the first: its
  -- digits, as a number of 64 bits, times what the letter at its end stands for.
  pub getarg-digits :
      (s : List ℕ) (before : List (List ℕ)) (d : ℕ) (digits : List ℕ) (c : ℕ)
      (after : List (List ℕ))
      → All (λ a. starts_with s a ≡ false) before
      → starts_with (codes "label") (s ++ (d ∷ digits ++ (c ∷ []))) ≡ false
      → AreDigits (d ∷ digits)
      → isdigit c ≡ false
      → getarg address s (before ++ (s ++ (d ∷ digits ++ (c ∷ []))) ∷ after)
        ≡ scale c (value 0 (d ∷ digits) % 2 ^ 64)
  unfolding getarg arg_value
  getarg-digits s before d digits c after first no_label h e =
      let arg = s ++ (d ∷ digits ++ (c ∷ [])) in
      getarg_from-skip s 1 before arg after first (starts_with-append s _)
      ∙ rw no_label (
          ap₂ scale (last_char-append_all s (d ∷ digits) c)
            (ap atol (drop-append s _) ∙ atol-digits c d digits h e))
