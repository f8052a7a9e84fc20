-- ===== src/Statistics/Spread/Squares.antt =====
-- The squared deviations of `uint64_variance` (lmbench3/src/lib_stats.c).
use native.Mathlib.Nat.{mul-add-mod_self_right, mod-eq_of_lt, mul-le-mul_right}
use repo_support_tools.Base.{
  ℕ, ◌+◌, ◌-◌, ◌*◌, ◌%◌, ◌^◌, ◌<◌, ◌≡◌, arith, dec_lt, ap, ◌∙◌, refl, List, [], ◌∷◌, length, some,
  All,
}
use repo_support_tools.Doubles.{Doubles}
use repo_support_tools.Statistics.{uint64_mean}
use repo_support_tools.Statistics.Spread.{
  deviation, squared, uint64_squares, uint64_variance, over_rest,
}

-- the distance of two numbers
abbrev pub distance : ℕ → ℕ → ℕ
distance a b = (a - b) + (b - a)

wrapped_square : (e d : ℕ) → (e + d) * (e + d) ≡ e * (e + 2 * d) + d * d
wrapped_square e d = omega arith

below_root : (d : ℕ) → d * d < 2 ^ 64 → d < 2 ^ 32
below_root d h = elim (dec_lt d (2 ^ 32)) [
  | yes less ↦ less
  | no more ↦ absurd (omega (arith, mul-le-mul_right {m = 2 ^ 32} {n = d} d (omega arith)))
]

square_of_wrapped : (d : ℕ) → d * d < 2 ^ 64 → (2 ^ 64 - d) * (2 ^ 64 - d) % 2 ^ 64 ≡ d * d
square_of_wrapped d h =
    let small = below_root d h in
    let e = 2 ^ 64 - 2 * d in
    let one : 2 ^ 64 - d ≡ e + d = omega arith in
    let two : e + 2 * d ≡ 2 ^ 64 = omega arith in
    ap (λ x. x * x % 2 ^ 64) one
    ∙ ap (λ x. x % 2 ^ 64) (wrapped_square e d)
    ∙ ap (λ x. (e * x + d * d) % 2 ^ 64) two
    ∙ mul-add-mod_self_right e (2 ^ 64) (d * d)
    ∙ mod-eq_of_lt h

-- Where the square of the distance fits 64 bits, the product of the wrapped differences is this
-- square, also for a value below the mean.
pub squared-distance :
    (v mean : ℕ)
    → v < 2 ^ 64
    → mean < 2 ^ 64
    → distance v mean * distance v mean < 2 ^ 64
    → squared v mean ≡ distance v mean * distance v mean
unfolding squared
squared-distance v mean hv hm fits = elim (dec_lt v mean) [
  | no above ↦
      let d = v - mean in
      let far : distance v mean ≡ d = omega arith in
      let wrapped : deviation v mean ≡ d = omega arith in
      let fits' : d * d < 2 ^ 64 = rw far at fits in rw (wrapped, far) (mod-eq_of_lt fits')
  | yes below ↦
      let d = mean - v in
      let far : distance v mean ≡ d = omega arith in
      let wrapped : deviation v mean ≡ 2 ^ 64 - d = omega arith in
      let fits' : d * d < 2 ^ 64 = rw far at fits in rw (wrapped, far) (square_of_wrapped d fits')
]

module _ (f : Doubles) where
  open f use {D, of_ℕ, add}

  -- the sum of the squares of the distances, each of them exact
  abbrev pub exact_squares : (mean : ℕ) → D → List ℕ → D
  exact_squares mean sum [] = sum
  exact_squares mean sum (v ∷ vs) =
      exact_squares mean (add sum (of_ℕ (distance v mean * distance v mean))) vs

  abbrev pub Fits : (mean : ℕ) → List ℕ → Type 0
  Fits mean = All (λ v. (v < 2 ^ 64) × (distance v mean * distance v mean < 2 ^ 64))

  uint64_squares-exact_squares :
      (mean : ℕ) (values : List ℕ) (sum : D)
      → mean < 2 ^ 64
      → Fits mean values
      → uint64_squares f mean sum values ≡ exact_squares mean sum values
  unfolding uint64_squares
  uint64_squares-exact_squares mean [] sum hm h = refl
  uint64_squares-exact_squares mean (v ∷ vs) sum hm h =
      rw (squared-distance v mean h.0.0 hm h.0.1) (uint64_squares-exact_squares mean vs _ hm h.1)

  -- `uint64_variance` sums the exact squares of the distances from the mean, also of values below it,
  -- where the differences wrap around: if each square fits 64 bits.
  pub uint64_variance-exact_squares :
      (values : List ℕ) (mean : ℕ)
      → uint64_mean values ≡ some mean
      → mean < 2 ^ 64
      → Fits mean values
      → uint64_variance f values
        ≡ some (over_rest f (exact_squares mean (of_ℕ 0) values) (length values))
  unfolding uint64_variance
  uint64_variance-exact_squares values mean e hm h =
      rw (e, uint64_variance, uint64_squares-exact_squares mean values (of_ℕ 0) hm h)
