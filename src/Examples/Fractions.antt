-- ===== src/Examples/Fractions.antt =====
-- `Doubles` as exact fractions of natural numbers, where a number over 0 stands for infinity. The
-- hypotheses about `Doubles` hold of them.
use native.Mathlib.Nat.{mul-le-mul_right}
use repo_support_tools.Base.{
  ℕ, zero, suc, ◌+◌, ◌-◌, ◌*◌, ◌/◌, ◌≤◌, ◌<◌, ◌≡◌, true, false, ltb, arith, dec_lt,
}
use repo_support_tools.Base.Int.{pos_part}
use repo_support_tools.Doubles.{Doubles, IsOrdered}
use repo_support_tools.Cache.Pages.Sorted.{IsStrict}

abbrev pub fractions : Doubles
fractions = record {
  D = ℕ × ℕ;
  of_ℕ = λ n. (n, 1);
  of_ℤ = λ z. (pos_part z, 1);
  add = λ p q. (p.0 * q.1 + q.0 * p.1, p.1 * q.1);
  sub = λ p q. (p.0 * q.1 - q.0 * p.1, p.1 * q.1);
  mul = λ p q. (p.0 * q.0, p.1 * q.1);
  div = λ p q. (p.0 * q.1, p.1 * q.0);
  lt = λ p q. ltb (p.0 * q.1) (q.0 * p.1);
  to_u64 = λ p. p.0 / p.1;
}

cross_trans : (u n v m w k : ℕ) → 0 < v → v * n ≤ u * m → w * m ≤ v * k → w * n ≤ u * k
cross_trans u n v zero w k pos h h' =
    let n_zero : n ≡ 0 = zero_factor v n pos (omega arith) in rw n_zero (omega arith)
  where
    zero_factor : (a b : ℕ) → 0 < a → a * b ≡ 0 → b ≡ 0
    zero_factor a zero p e = omega arith
    zero_factor a (suc b) p e = absurd (omega arith)
cross_trans u n v (suc m) w k pos h h' = elim (dec_lt (u * k) (w * n)) [
  | no fits ↦ omega arith
  | yes less ↦ absurd (
      omega (
        arith,
        mul-le-mul_right {m = suc (u * k)} {n = w * n} (suc m) less,
        mul-le-mul_right n h',
        mul-le-mul_right k h,
      ))
]

pub fractions-IsOrdered : IsOrdered fractions
fractions-IsOrdered = record {
  asymm = λ u n v m pu pv h. ground arith;
  not_lt_trans = λ u n v m w k pu pv pw h h'. less_false (w * 1 * (1 * n)) (u * 1 * (1 * k)) (
      let cross =
        cross_trans u n v m w k pv
          (let a = at_most (u * 1 * (1 * m)) (v * 1 * (1 * n)) h in omega arith)
          (let b = at_most (v * 1 * (1 * k)) (w * 1 * (1 * m)) h' in omega arith) in
      omega arith);
}
  where
    less_false : (a b : ℕ) → a ≤ b → ltb b a ≡ false
    less_false a b h = ground arith

    at_most : (a b : ℕ) → ltb a b ≡ false → b ≤ a
    at_most a b h = ground arith

less : (a b : ℕ) → ltb a b ≡ true → a < b
less a b h = ground arith

product_lt : (x y z : ℕ) → x * z < y * z → x < y
product_lt x y z h = elim (dec_lt x y) [
  | yes lt ↦ lt
  | no ge ↦ absurd (let ge' : y ≤ x = omega arith in omega (arith, mul-le-mul_right z ge'))
]

less_trans : (a b c d m n : ℕ) → a * d < c * b → c * n < m * d → a * n < m * b
less_trans a zero c d m n h h' = absurd (omega arith)
less_trans a (suc b) c d m n h h' = product_lt (a * n) (m * suc b) d (
    omega (
      arith,
      mul-le-mul_right {m = a * d} {n = c * suc b} n (omega arith),
      mul-le-mul_right {m = suc (c * n)} {n = m * d} (suc b) (omega arith),
    ))

pub fractions-IsStrict : IsStrict fractions
fractions-IsStrict = record {
  irrefl = λ p. ground arith;
  trans = λ p q r h h'.
      let cross = less_trans p.0 p.1 q.0 q.1 r.0 r.1 (less _ _ h) (less _ _ h') in ground arith;
}
