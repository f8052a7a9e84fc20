-- ===== src/Doubles.antt =====
-- C `double` as an interface: the operations that the timing and statistics code uses. They are a
-- parameter of the definitions; what a theorem needs of them is a named hypothesis.
use repo_support_tools.Base.{ℕ, ◌<◌, ◌≡◌, Bool, true, false}
use repo_support_tools.Base.Int.{ℤ}

pub record Doubles : Type 1 where
  pub D : Type 0
  -- `(double) x` of an unsigned or a signed integer
  pub of_ℕ : ℕ → D
  pub of_ℤ : ℤ → D
  pub add : D → D → D
  pub sub : D → D → D
  pub mul : D → D → D
  pub div : D → D → D
  -- `a < b`
  pub lt : D → D → Bool
  -- `(uint64) a`
  pub to_u64 : D → ℕ

-- IEEE 754 `<` on the quotients of positive counts: none of them is NaN, so no two of them are each
-- less than the other, and "not less" is transitive.
pub record IsOrdered (f : Doubles) : Type 0 where
  pub asymm :
      (u n v m : ℕ)
      → 0 < u
      → 0 < v
      → f.lt (f.div (f.of_ℕ u) (f.of_ℕ n)) (f.div (f.of_ℕ v) (f.of_ℕ m)) ≡ true
      → f.lt (f.div (f.of_ℕ v) (f.of_ℕ m)) (f.div (f.of_ℕ u) (f.of_ℕ n)) ≡ false
  pub not_lt_trans :
      (u n v m w k : ℕ)
      → 0 < u
      → 0 < v
      → 0 < w
      → f.lt (f.div (f.of_ℕ u) (f.of_ℕ n)) (f.div (f.of_ℕ v) (f.of_ℕ m)) ≡ false
      → f.lt (f.div (f.of_ℕ v) (f.of_ℕ m)) (f.div (f.of_ℕ w) (f.of_ℕ k)) ≡ false
      → f.lt (f.div (f.of_ℕ u) (f.of_ℕ n)) (f.div (f.of_ℕ w) (f.of_ℕ k)) ≡ false
