-- ===== src/Cache/Pages/Sorted.antt =====
-- `pagesort` of lmbench3/src/cache.c sorts, and a page keeps its latency.
use mathlib.Core.List.{Perm}
use repo_support_tools.Base.{
  ℕ, zero, suc, ◌≤◌, ◌≡◌, true, false, List, [], ◌∷◌, length, refl, arith, Bool-cases, inl, inr,
  All, ◌⊎◌,
}
use repo_support_tools.Doubles.{Doubles}
use repo_support_tools.Cache.Pages.Pairs.{
  sweep_elim, length-sweep, pagesort_from-perm, pagesort_from-All,
}
use repo_support_tools.Cache.Pages.{sweep, pagesort_from, pagesort}

-- IEEE 754 `<` is a strict order, of all doubles
pub record IsStrict (f : Doubles) : Type 0 where
  pub irrefl : (a : f.D) → f.lt a a ≡ false
  pub trans : (a b c : f.D) → f.lt a b ≡ true → f.lt b c ≡ true → f.lt a c ≡ true

module _ (f : Doubles) (strict : IsStrict f) where
  open f use {D, lt}

  -- no latency of a list is below `x`
  abbrev NoneBelow : D → List (D × ℕ) → Type 0
  NoneBelow x l = All (λ y. lt y.0 x ≡ false) l

  -- no latency is below an earlier one
  abbrev pub IsSorted : List (D × ℕ) → Type 0
  IsSorted [] = Unit
  IsSorted (x ∷ l) = NoneBelow x.0 l × IsSorted l

  AtMost : D → D → Type 0
  AtMost a b = (a ≡ b) ⊎ (lt a b ≡ true)

  -- what is not below `b` is not below what is at most `b`
  not_below : (a b c : D) → AtMost a b → lt c b ≡ false → lt c a ≡ false
  unfolding AtMost
  not_below a b c (inl e) h = rw e h
  not_below a b c (inr less) h = elim (Bool-cases (lt c a)) [
    | inr more ↦ more
    | inl less' ↦ absurd (let both = strict.trans c a b less' less in cc)
  ]

  below_trans : (a b c : D) → AtMost a b → lt b c ≡ true → lt a c ≡ true
  unfolding AtMost
  below_trans a b c (inl e) h = rw e h
  below_trans a b c (inr less) h = strict.trans a b c less h

  asymm : (a b : D) → lt a b ≡ true → lt b a ≡ false
  asymm a b h = elim (Bool-cases (lt b a)) [
    | inr less ↦ less
    | inl less ↦ absurd (let both = strict.trans a b a h less in let never = strict.irrefl a in cc)
  ]

  -- what is left at `i` is at most what was there, and no rest is below it
  sweep-NoneBelow :
      (x : D × ℕ) (l : List (D × ℕ))
      → NoneBelow (sweep f x l).0.0 (sweep f x l).1 × AtMost (sweep f x l).0.0 x.0
  unfolding AtMost
  sweep-NoneBelow =
      sweep_elim f (λ x l r. NoneBelow r.0.0 r.1 × AtMost r.0.0 x.0) (λ x. (tt, inl refl))
        (λ x y l less rest.
          let below = below_trans (sweep f y l).0.0 y.0 x.0 rest.1 less in
          ((asymm (sweep f y l).0.0 x.0 below, rest.0), inr below))
        (λ x y l more rest. ((not_below (sweep f x l).0.0 x.0 y.0 rest.1 more, rest.0), rest.1))

  pagesort_from-IsSorted :
      (fuel : ℕ) (l : List (D × ℕ)) → length l ≤ fuel → IsSorted (pagesort_from f fuel l)
  unfolding pagesort_from
  pagesort_from-IsSorted zero [] h = tt
  pagesort_from-IsSorted zero (x ∷ l) h = absurd (omega arith)
  pagesort_from-IsSorted (suc fuel) [] h = tt
  pagesort_from-IsSorted (suc fuel) (x ∷ l) h =
      let s = sweep f x l in
      (
        pagesort_from-All f (λ y. lt y.0 s.0.0 ≡ false) fuel s.1 (sweep-NoneBelow x l).0,
        pagesort_from-IsSorted fuel s.1 (omega (arith, length-sweep f x l)),
      )

  -- `pagesort` leaves the pairs of a latency and a page as they are, in another order, such that no
  -- latency is below an earlier one, if `<` is a strict order.
  pub pagesort-IsSorted : (l : List (D × ℕ)) → Perm (pagesort f l) l × IsSorted (pagesort f l)
  unfolding pagesort
  pagesort-IsSorted l =
      (pagesort_from-perm f (length l) l, pagesort_from-IsSorted (length l) l (omega arith))
