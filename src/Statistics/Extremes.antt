-- ===== src/Statistics/Extremes.antt =====
-- The smallest, the greatest and the mean value of an array in lmbench3/src/lib_stats.c.
use repo_support_tools.Base.{
  ℕ, ◌+◌, ◌*◌, ◌/◌, ◌%◌, ◌^◌, ◌≤◌, ◌<◌, ◌≡◌, refl, sym, ap, ◌∙◌, List, [], ◌∷◌, ltb, ◌==◌,
  if◌then◌else◌, some, length, All, Bool-cases, inl, inr, ◌⊎◌, arith,
}
use repo_support_tools.Base.Int.{ℤ, ◌≤ℤ◌, ltb_ℤ}
use repo_support_tools.Statistics.{
  uint64_sum, uint64_mean, uint64_min_from, uint64_min, uint64_max_from, uint64_max, int_min_from,
  int_min, int_max_from, int_max,
}
use mathlib.Core.List.{Mem, Mem-prop, mem-cons, mem-cons_self, mem-cons_of_mem}
use mathlib.Core.Option.{some-injective}
use mathlib.Core.Logic.Or
use mathlib.Core.Path.{subst, subst₂}
use native.Mathlib.Nat.{le-div_iff_mul-le, div-le_of_le-mul}

-- One loop over the array that keeps the better of two values, for any order `le`.
module _ {A : Type 0} (le : A → A → Type 0) (le_refl : (a : A) → le a a)
    (le_trans : (a b c : A) → le a b → le b c → le a c) (pick : A → A → A)
    (pick-cases : (m v : A) → ((pick m v ≡ m) × le m v) ⊎ ((pick m v ≡ v) × le v m))
    (loop : A → List A → A) (loop-nil : (m : A) → loop m [] ≡ m)
    (loop-cons : (m v : A) (vs : List A) → loop m (v ∷ vs) ≡ loop (pick m v) vs) where
  abbrev IsExtreme : A → List A → Type 0
  IsExtreme r l = Mem r l × All (λ v. le r v) l

  loop-IsExtreme : (m : A) (l : List A) → IsExtreme (loop m l) (m ∷ l)
  loop-IsExtreme m [] = rw loop-nil (mem-cons_self, (le_refl m, tt))
  loop-IsExtreme m (v ∷ vs) = elim (pick-cases m v) [
    | inl (e, h) ↦
        let rest = loop-IsExtreme m vs in
        subst (λ r. IsExtreme r (m ∷ v ∷ vs)) (sym (loop-cons m v vs ∙ ap (λ p. loop p vs) e))
          (
            Or.elim Mem-prop (mem-cons.0 rest.0) (λ p. mem-cons.1 (Or.inl p))
                (λ q. mem-cons_of_mem m (mem-cons_of_mem v q)),
            (rest.1.0, (le_trans (loop m vs) m v rest.1.0 h, rest.1.1)),
          )
    | inr (e, h) ↦
        let rest = loop-IsExtreme v vs in
        subst (λ r. IsExtreme r (m ∷ v ∷ vs)) (sym (loop-cons m v vs ∙ ap (λ p. loop p vs) e))
          (mem-cons_of_mem m rest.0, (le_trans (loop v vs) v m rest.1.0 h, rest.1))
  ]

-- `uint64_min` of an array that is not empty is one of its values, and none is less.
uint64_min-least :
    (v : ℕ) (vs : List ℕ) {m : ℕ}
    → uint64_min (v ∷ vs) ≡ some m
    → Mem m (v ∷ vs) × All (λ w. m ≤ w) (v ∷ vs)
unfolding uint64_min uint64_min_from
uint64_min-least v vs e =
    subst (λ r. Mem r (v ∷ vs) × All (λ w. r ≤ w) (v ∷ vs)) (some-injective _ _ e)
      (loop-IsExtreme ◌≤◌ (λ a. omega arith) (λ a b c h k. omega arith)
        (λ m w. if ltb w m then w else m) (λ m w. ground arith) uint64_min_from (λ m. refl)
        (λ m w ws. refl) v vs)

-- `uint64_max` of an array that is not empty is one of its values, and none is greater.
uint64_max-greatest :
    (v : ℕ) (vs : List ℕ) {m : ℕ}
    → uint64_max (v ∷ vs) ≡ some m
    → Mem m (v ∷ vs) × All (λ w. w ≤ m) (v ∷ vs)
unfolding uint64_max uint64_max_from
uint64_max-greatest v vs e =
    subst (λ r. Mem r (v ∷ vs) × All (λ w. w ≤ r) (v ∷ vs)) (some-injective _ _ e)
      (loop-IsExtreme (λ a b. b ≤ a) (λ a. omega arith) (λ a b c h k. omega arith)
        (λ m w. if ltb m w then w else m) (λ m w. ground arith) uint64_max_from (λ m. refl)
        (λ m w ws. refl) v vs)

-- `int_min` and `int_max` of an array that is not empty are values of it, and all its values lie
-- between them.
int_min-int_max :
    (v : ℤ) (vs : List ℤ) {lo hi : ℤ}
    → int_min (v ∷ vs) ≡ some lo
    → int_max (v ∷ vs) ≡ some hi
    → Mem lo (v ∷ vs) × Mem hi (v ∷ vs) × All (λ w. lo ≤ℤ w) (v ∷ vs) × All (λ w. w ≤ℤ hi) (v ∷ vs)
unfolding int_min int_max int_min_from int_max_from
int_min-int_max v vs e e' =
    subst₂
      (λ a b.
        Mem a (v ∷ vs) × Mem b (v ∷ vs) × All (λ w. a ≤ℤ w) (v ∷ vs) × All (λ w. w ≤ℤ b) (v ∷ vs))
      (some-injective _ _ e) (some-injective _ _ e') (least.0, greatest.0, least.1, greatest.1)
  where
    least : Mem (int_min_from v vs) (v ∷ vs) × All (λ w. int_min_from v vs ≤ℤ w) (v ∷ vs)
    least =
        loop-IsExtreme ◌≤ℤ◌ (λ a. omega arith) (λ a b c h k. omega arith)
          (λ m w. if ltb_ℤ w m then w else m) (λ m w. ground arith) int_min_from (λ m. refl)
          (λ m w ws. refl) v vs

    greatest : Mem (int_max_from v vs) (v ∷ vs) × All (λ w. w ≤ℤ int_max_from v vs) (v ∷ vs)
    greatest =
        loop-IsExtreme (λ a b. b ≤ℤ a) (λ a. omega arith) (λ a b c h k. omega arith)
          (λ m w. if ltb_ℤ m w then w else m) (λ m w. ground arith) int_max_from (λ m. refl)
          (λ m w ws. refl) v vs

abbrev total : List ℕ → ℕ
total [] = 0
total (v ∷ vs) = v + total vs

-- The loop of `uint64_mean` gives the sum of the values modulo 2^64.
uint64_sum-total : (s : ℕ) (l : List ℕ) → s < 2 ^ 64 → uint64_sum s l ≡ (s + total l) % 2 ^ 64
unfolding uint64_sum
uint64_sum-total s [] h = omega arith
uint64_sum-total s (v ∷ vs) h = omega (arith, uint64_sum-total ((s + v) % 2 ^ 64) vs (omega arith))

module _ (lo hi : ℕ) where
  total_bounds :
      (l : List ℕ)
      → All (λ v. (lo ≤ v) × (v ≤ hi)) l
      → (length l * lo ≤ total l) × (total l ≤ length l * hi)
  total_bounds [] h = omega arith
  total_bounds (v ∷ vs) h = omega (arith, total_bounds vs h.1)

  -- The mean of values between `lo` and `hi` is between them too, if their sum fits 64 bits.
  uint64_mean_bounds :
      (l : List ℕ) {m : ℕ}
      → All (λ v. (lo ≤ v) × (v ≤ hi)) l
      → length l * hi < 2 ^ 64
      → uint64_mean l ≡ some m
      → (lo ≤ m) × (m ≤ hi)
  unfolding uint64_mean
  uint64_mean_bounds l {m} within small e =
      let sums = total_bounds l within in
      let exact : uint64_sum 0 l ≡ total l = omega (arith, uint64_sum-total 0 l (omega arith)) in
      elim (Bool-cases (length l == 0)) [
        | inl none_there ↦ absurd (ground arith)
        | inr some_there ↦
            let pos_length : 0 < length l = ground arith in
            let value : uint64_sum 0 l / length l ≡ m = some-injective _ _ (rw some_there at e) in
            rw (← value, exact)
              (
                (le-div_iff_mul-le pos_length).1 (omega (arith, sums)),
                div-le_of_le-mul (length l) (omega (arith, sums)),
              )
      ]
