-- ===== src/Cache/Pages/Pairs.antt =====
-- `pagesort` of lmbench3/src/cache.c exchanges pairs of a latency and a page.
use mathlib.Core.List.{Perm}
use mathlib.Core.List.Perm
use mathlib.Core.Path.{subst}
use repo_support_tools.Base.{
  ℕ, zero, suc, ◌≡◌, true, false, List, [], ◌∷◌, length, refl, ap, ◌∙◌, sym, Bool-cases, inl, inr,
  All,
}
use repo_support_tools.Doubles.{Doubles}
use repo_support_tools.Cache.Pages.{sweep, pagesort_from}

module _ (f : Doubles) where
  open f use {D, lt}

  sweep_exchange :
      (x y : D × ℕ) (l : List (D × ℕ))
      → lt y.0 x.0 ≡ true
      → sweep f x (y ∷ l) ≡ ((sweep f y l).0, x ∷ (sweep f y l).1)
  unfolding sweep
  sweep_exchange x y l less = rw (less, sweep) refl

  sweep_keep :
      (x y : D × ℕ) (l : List (D × ℕ))
      → lt y.0 x.0 ≡ false
      → sweep f x (y ∷ l) ≡ ((sweep f x l).0, y ∷ (sweep f x l).1)
  unfolding sweep
  sweep_keep x y l more = rw (more, sweep) refl

  -- a property of what a pass starts with, and of what it leaves
  pub sweep_elim :
      (P : D × ℕ → List (D × ℕ) → (D × ℕ) × List (D × ℕ) → Type 0)
      → ((x : D × ℕ) → P x [] (x, []))
      → ((x y : D × ℕ) (l : List (D × ℕ))
          → lt y.0 x.0 ≡ true
          → P y l (sweep f y l)
          → P x (y ∷ l) ((sweep f y l).0, x ∷ (sweep f y l).1))
      → ((x y : D × ℕ) (l : List (D × ℕ))
          → lt y.0 x.0 ≡ false
          → P x l (sweep f x l)
          → P x (y ∷ l) ((sweep f x l).0, y ∷ (sweep f x l).1))
      → (x : D × ℕ) (l : List (D × ℕ)) → P x l (sweep f x l)
  unfolding sweep
  sweep_elim P stop exchange keep x [] = stop x
  sweep_elim P stop exchange keep x (y ∷ l) = elim (Bool-cases (lt y.0 x.0)) [
    | inl less ↦
        subst (P x (y ∷ l)) (sym (sweep_exchange x y l less))
          (exchange x y l less (sweep_elim P stop exchange keep y l))
    | inr more ↦
        subst (P x (y ∷ l)) (sym (sweep_keep x y l more))
          (keep x y l more (sweep_elim P stop exchange keep x l))
  ]

  sweep-perm : (x : D × ℕ) (l : List (D × ℕ)) → Perm ((sweep f x l).0 ∷ (sweep f x l).1) (x ∷ l)
  sweep-perm =
      sweep_elim (λ x l r. Perm (r.0 ∷ r.1) (x ∷ l)) (λ x. Perm.refl (x ∷ []))
        (λ x y l less rest.
          Perm.trans (Perm.swap x (sweep f y l).0 (sweep f y l).1) (Perm.cons x rest))
        (λ x y l more rest.
          Perm.trans (Perm.swap y (sweep f x l).0 (sweep f x l).1)
            (Perm.trans (Perm.cons y rest) (Perm.swap x y l)))

  sweep-All :
      (P : D × ℕ → Type 0) (x : D × ℕ) (l : List (D × ℕ))
      → P x
      → All P l
      → P (sweep f x l).0 × All P (sweep f x l).1
  sweep-All P =
      sweep_elim (λ x l r. P x → All P l → P r.0 × All P r.1) (λ x h all. (h, tt))
        (λ x y l less rest h all. let r = rest all.0 all.1 in (r.0, (h, r.1)))
        (λ x y l more rest h all. let r = rest h all.1 in (r.0, (all.0, r.1)))

  pub length-sweep : (x : D × ℕ) (l : List (D × ℕ)) → length (sweep f x l).1 ≡ length l
  length-sweep =
      sweep_elim (λ x l r. length r.1 ≡ length l) (λ x. refl) (λ x y l less rest. ap suc rest)
        (λ x y l more rest. ap suc rest)

  pub pagesort_from-perm : (fuel : ℕ) (l : List (D × ℕ)) → Perm (pagesort_from f fuel l) l
  unfolding pagesort_from
  pagesort_from-perm zero l = Perm.refl l
  pagesort_from-perm (suc fuel) [] = Perm.refl []
  pagesort_from-perm (suc fuel) (x ∷ l) =
      Perm.trans (Perm.cons (sweep f x l).0 (pagesort_from-perm fuel (sweep f x l).1))
        (sweep-perm x l)

  pub pagesort_from-All :
      (P : D × ℕ → Type 0) (fuel : ℕ) (l : List (D × ℕ)) → All P l → All P (pagesort_from f fuel l)
  unfolding pagesort_from
  pagesort_from-All P zero l h = h
  pagesort_from-All P (suc fuel) [] h = tt
  pagesort_from-All P (suc fuel) (x ∷ l) h =
      let s = sweep-All P x l h.0 h.1 in (s.0, pagesort_from-All P fuel (sweep f x l).1 s.1)

  pub length-pagesort_from :
      (fuel : ℕ) (l : List (D × ℕ)) → length (pagesort_from f fuel l) ≡ length l
  unfolding pagesort_from
  length-pagesort_from zero l = refl
  length-pagesort_from (suc fuel) [] = refl
  length-pagesort_from (suc fuel) (x ∷ l) =
      ap suc (length-pagesort_from fuel (sweep f x l).1 ∙ length-sweep x l)
