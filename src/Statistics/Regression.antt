-- ===== src/Statistics/Regression.antt =====
-- `regression` of lmbench3/src/lib_stats.c: a line through points with their standard deviations.
use repo_support_tools.Base.{List, [], ◌∷◌, length}
use repo_support_tools.Base.Int.{pos, ◌-ℤ◌}
use repo_support_tools.Doubles.{Doubles}

-- `x[i]`, `y[i]` and, where `sig` is no NULL, `sig[i]`
pub record Point (D : Type 0) : Type 0 where
  pub x : D
  pub y : D
  pub sig : D

-- `S`, `Sx` and `Sy`
pub record Sums (D : Type 0) : Type 0 where
  pub s : D
  pub sx : D
  pub sy : D

-- what is stored through the pointers
pub record Line (D : Type 0) : Type 0 where
  pub a : D
  pub b : D
  pub sig_a : D
  pub sig_b : D
  pub chi2 : D

-- `sig ? sig[i] : 1.0` is the field `sig` of a point: it is 1 where `sig` is NULL.
module _ (f : Doubles) (sqrt : f.D → f.D) where
  open f use {D, of_ℕ, of_ℤ, add, sub, mul, div}

  abbrev pub one : D
  one = of_ℕ 1

  unfoldable pub weigh : Sums D → List (Point D) → Sums D
  weigh t [] = t
  weigh t (p ∷ ps) =
      let weight = div one (mul p.sig p.sig) in
      weigh
        (record {
          s = add t.s weight;
          sx = add t.sx (mul weight p.x);
          sy = add t.sy (mul weight p.y);
        })
        ps

  -- the second loop: `Stt` and the sum of `b`
  unfoldable pub slope : (sx_s : D) → D × D → List (Point D) → D × D
  slope sx_s t [] = t
  slope sx_s t (p ∷ ps) =
      let t_i = div (sub p.x sx_s) p.sig in
      slope sx_s (add t.0 (mul t_i t_i), add t.1 (div (mul t_i p.y) p.sig)) ps

  unfoldable pub merit : (a b : D) → D → List (Point D) → D
  merit a b chi2 [] = chi2
  merit a b chi2 (p ∷ ps) =
      let m = div (sub p.y (add a (mul b p.x))) p.sig in merit a b (add chi2 (mul m m)) ps

  -- where `sig` is NULL, the points have `sig` 1
  abbrev pub unweighted : List (D × D) → List (Point D)
  unweighted [] = []
  unweighted (q ∷ qs) = record { x = q.0; y = q.1; sig = one } ∷ unweighted qs

  unfoldable pub fit_line : List (Point D) → Line D
  unfolding weigh slope merit
  fit_line ps =
      let zero_sum = of_ℕ 0 in
      let t = weigh (record { s = zero_sum; sx = zero_sum; sy = zero_sum }) ps in
      let (stt, sum) = slope (div t.sx t.s) (zero_sum, zero_sum) ps in
      let b = div sum stt in
      let a = div (sub t.sy (mul b t.sx)) t.s in
      record {
        a = a;
        b = b;
        sig_a = sqrt (div (add one (div (mul t.sx t.sx) (mul t.s stt))) t.s);
        sig_b = sqrt (div one stt);
        chi2 = merit a b zero_sum ps;
      }

  -- `regression` with `sig`, and with NULL for it
  unfoldable pub regression : List (Point D) → Line D
  unfolding fit_line
  regression ps = fit_line ps

  unfoldable pub regression_null : List (D × D) → Line D
  unfolding fit_line
  regression_null qs =
      let l = fit_line (unweighted qs) in
      let scale = sqrt (div l.chi2 (of_ℤ (pos (length qs) -ℤ pos 2))) in
      record l { sig_a = mul l.sig_a scale; sig_b = mul l.sig_b scale }
