-- ===== src/Harness/Parent.antt =====
-- How `benchmp_parent` of lmbench3/src/lib_timing.c merges the results that its children send.
use mathlib.Core.List.{Perm, append-nil}
use mathlib.Core.Path.{subst}
use repo_support_tools.Base.{
  ◌≤◌, ◌≡◌, List, [], ◌∷◌, ◌++◌, length, All, lt→ltb, arith, refl, sym, ◌∙◌, ap,
}
use repo_support_tools.Doubles.{Doubles, IsOrdered}
use repo_support_tools.Timing.Results.{Value, Results, insertinit, insertsort, collect}
use repo_support_tools.Timing.Results.Place.{entries}
use repo_support_tools.Timing.Results.Order.{
  IsValid, IsPositive, measured, collect-step, collect-perm, collect-IsValid,
}

module _ (f : Doubles) where
  -- `for (j = 0; j < results->N; ++j) insertsort(results->v[j].u, results->v[j].n, merged_results);`
  unfoldable pub merge : List Value → Results → Results
  merge [] merged = merged
  merge (x ∷ xs) merged = merge xs (insertsort f x.u x.n merged)

  -- the `for` over the children, given what each of them sends
  unfoldable pub gather : List Results → Results → Results
  gather [] merged = merged
  gather (r ∷ rs) merged = gather rs (merge (entries r) merged)

  -- all measurements of the children
  abbrev pub all_entries : List Results → List Value
  all_entries [] = []
  all_entries (r ∷ rs) = entries r ++ all_entries rs

  gather-collect :
      (xs : List Value) (rs : List Results) (merged : Results)
      → gather rs (merge xs merged) ≡ collect f (xs ++ all_entries rs) merged
  unfolding gather merge
  gather-collect [] [] merged = unfold collect in refl
  gather-collect [] (r ∷ rs) merged = gather-collect (entries r) rs merged
  gather-collect (x ∷ xs) rs merged =
      gather-collect xs rs (insertsort f x.u x.n merged)
      ∙ sym (collect-step f x (xs ++ all_entries rs) merged)

  measured_same : (xs : List Value) → All (IsPositive f) xs → measured f xs ≡ xs
  measured_same [] h = refl
  measured_same (x ∷ xs) h =
      let kept = lt→ltb 0 x.u h.0 in rw kept (ap (λ l. x ∷ l) (measured_same xs h.1))

  all_entries-IsPositive :
      (rs : List Results) → All (IsValid f) rs → All (IsPositive f) (all_entries rs)
  all_entries-IsPositive [] h = tt
  all_entries-IsPositive (r ∷ rs) h =
      append-All (entries r) _ h.0.positive (all_entries-IsPositive rs h.1)
    where
      append-All :
          (xs ys : List Value)
          → All (IsPositive f) xs
          → All (IsPositive f) ys
          → All (IsPositive f) (xs ++ ys)
      append-All [] ys p q = q
      append-All (x ∷ xs) ys p q = (p.0, append-All xs ys p.1 q)

  module _ (o : IsOrdered f) where
    -- If every child sends a valid result set and the merged set has room for all measurements, it
    -- becomes valid and has just the measurements of the children.
    pub gather-perm :
        (rs : List Results) (v : List Value)
        → All (IsValid f) rs
        → length (all_entries rs) ≤ length v
        → IsValid f (gather rs (insertinit (record { count = 0; v = v })))
          × Perm (entries (gather rs (insertinit (record { count = 0; v = v })))) (all_entries rs)
    unfolding insertinit
    gather-perm rs v valid room =
        let empty : Results = record { count = 0; v = v } in
        let all = all_entries rs in
        let gathered : gather rs empty ≡ collect f all empty =
          (unfold merge in gather-collect [] rs empty) in
        let stored : Perm (entries (collect f all empty)) (measured f all ++ []) =
          collect-perm f all empty (omega arith) in
        rw gathered (
          collect-IsValid f o all empty
              (record { room = omega arith; positive = tt; descending = tt }) (omega arith),
          subst (λ l. Perm (entries (collect f all empty)) l)
              (append-nil (measured f all) ∙ measured_same all (all_entries-IsPositive rs valid))
              stored,
        )
