-- ===== src/Scheduling/Custom.antt =====
-- Which strings `custom` of lmbench3/src/lib_sched.c reads within their bounds.
use repo_support_tools.Base.{
  ℕ, zero, suc, ◌+◌, ◌≤◌, ◌<◌, ◌≡◌, Bool, true, false, not, Option, none, some, List, [], ◌∷◌,
  length, if◌then◌else◌, Bool-cases, inl, inr, arith, refl, sym, ◌∙◌, ap,
}
use repo_support_tools.Base.Text.{isdigit}
use repo_support_tools.Scheduling.{
  skip_other, take_digits, drop_digits, tail, store_value, custom_values,
}

-- whether the last character, or `b` for the empty string, is a digit
abbrev pub ends_in_digit : Bool → List ℕ → Bool
ends_in_digit b [] = b
ends_in_digit b (c ∷ cs) = ends_in_digit (isdigit c) cs

abbrev pub succeeds : Option (List ℕ) → Bool
succeeds none = false
succeeds (some vs) = true

skip_other-ends : (s : List ℕ) → ends_in_digit false (skip_other s) ≡ ends_in_digit false s
unfolding skip_other
skip_other-ends [] = refl
skip_other-ends (c ∷ cs) = elim (Bool-cases (isdigit c)) [
  | inl e ↦ rw e (ap (λ b. ends_in_digit b cs) e)
  | inr e ↦ rw e (skip_other-ends cs)
]

-- what the end of a string is after its first digits
abbrev ends_after : List ℕ → Bool
ends_after [] = true
ends_after (c ∷ cs) = ends_in_digit false cs

drop_digits-ends : (s : List ℕ) → ends_in_digit true s ≡ ends_after (drop_digits s)
unfolding drop_digits
drop_digits-ends [] = refl
drop_digits-ends (c ∷ cs) = elim (Bool-cases (isdigit c)) [
  | inl e ↦ rw e (drop_digits-ends cs)
  | inr e ↦ rw e refl
]

length-drop_digits : (s : List ℕ) → length (drop_digits s) ≤ length s
unfolding drop_digits
length-drop_digits [] = omega arith
length-drop_digits (c ∷ cs) = elim (Bool-cases (isdigit c)) [
  | inl e ↦ rw e (omega (arith, length-drop_digits cs))
  | inr e ↦ rw e (omega arith)
]

length-skip_other : (s : List ℕ) → length (skip_other s) ≤ length s
unfolding skip_other
length-skip_other [] = omega arith
length-skip_other (c ∷ cs) = elim (Bool-cases (isdigit c)) [
  | inl e ↦ rw e (omega arith)
  | inr e ↦ rw e (omega (arith, length-skip_other cs))
]

abbrev StartsWithDigit : List ℕ → Type 0
StartsWithDigit [] = Unit
StartsWithDigit (c ∷ cs) = isdigit c ≡ true

choice-StartsWithDigit :
    (c : ℕ) (cs rest : List ℕ) (b : Bool)
    → isdigit c ≡ b
    → StartsWithDigit rest
    → StartsWithDigit (if b then c ∷ cs else rest)
choice-StartsWithDigit c cs rest true e h = e
choice-StartsWithDigit c cs rest false e h = h

skip_other-StartsWithDigit : (s : List ℕ) → StartsWithDigit (skip_other s)
unfolding skip_other
skip_other-StartsWithDigit [] = tt
skip_other-StartsWithDigit (c ∷ cs) =
    choice-StartsWithDigit c cs (skip_other cs) (isdigit c) refl (skip_other-StartsWithDigit cs)

succeeds-store_value :
    (d : ℕ) (ds : List ℕ) (c : ℕ) (cs : List ℕ) (others : Option (List ℕ))
    → succeeds (store_value (d ∷ ds) (c ∷ cs) others) ≡ succeeds others
succeeds-store_value d ds c cs none = refl
succeeds-store_value d ds c cs (some vs) = refl

module _ (fuel bound : ℕ)
    (others : (r : List ℕ)
      → length r < bound
      → succeeds (custom_values fuel r) ≡ not (ends_in_digit false r)) where
  after_digits :
      (d : ℕ) (ds left : List ℕ)
      → length left ≤ bound
      → succeeds (store_value (d ∷ ds) left (custom_values fuel (tail left)))
        ≡ not (ends_after left)
  after_digits d ds [] h = refl
  after_digits d ds (c ∷ cs) h = succeeds-store_value d ds c cs _ ∙ others cs (omega arith)

  round :
      (q : List ℕ)
      → StartsWithDigit q
      → length q ≤ bound + 1
      → succeeds
          (store_value (take_digits q) (drop_digits q) (custom_values fuel (tail (drop_digits q))))
        ≡ not (ends_in_digit false q)
  unfolding take_digits drop_digits
  round [] h room = refl
  round (c ∷ cs) h room = rw h (
      after_digits c (take_digits cs) (drop_digits cs) (omega (arith, length-drop_digits cs))
      ∙ ap not (sym (drop_digits-ends cs)))

-- The loop ends within as many rounds as the string has characters and one more. It stays inside
-- the string if the string does not end in a digit, and reads past its terminator if it does.
pub custom_values-succeeds :
    (fuel : ℕ) (str : List ℕ)
    → length str < fuel
    → succeeds (custom_values fuel str) ≡ not (ends_in_digit false str)
unfolding custom_values
custom_values-succeeds zero str h = absurd (omega arith)
custom_values-succeeds (suc fuel) str h =
    round fuel fuel (custom_values-succeeds fuel) (skip_other str) (skip_other-StartsWithDigit str)
      (omega (arith, length-skip_other str))
    ∙ ap not (skip_other-ends str)
