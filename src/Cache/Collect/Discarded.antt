-- ===== src/Cache/Collect/Discarded.antt =====
-- What `collect_data` of lmbench3/src/cache.c does when the largest size has no positive latency.
use repo_support_tools.Base.{
  ℕ, zero, suc, ◌≤◌, ◌<◌, ◌≡◌, ◌≢◌, Bool, true, false, List, Option, none, some, get_or-set_ne,
  refl, ap, ◌∙◌, arith, if◌then◌else◌,
}
use repo_support_tools.Doubles.{Doubles}
use repo_support_tools.Cache.Levels.{CacheResults, result_at}
use repo_support_tools.Cache.Measure.{Machine, State}
use repo_support_tools.Cache.Collect.{measure_at, discard}

module _ (f : Doubles) (machine : Machine) where
  open f use {D}

  abbrev pub is_positive : List (CacheResults f) → ℕ → Bool
  is_positive p i = f.lt (f.of_ℕ 0) (result_at f p i).latency

  measure_at_ne :
      (i j : ℕ) (x : List (CacheResults f) × State)
      → i ≢ j
      → is_positive (measure_at f machine i x).0 j ≡ is_positive x.0 j
  unfolding measure_at
  measure_at_ne i j (p, s) h =
      ap (λ (r : CacheResults f). f.lt (f.of_ℕ 0) r.latency) (get_or-set_ne p i j _ _ h)

  -- how many samples the loop leaves
  abbrev pub samples_left : Option (ℕ × (List (CacheResults f) × State)) → Option ℕ
  samples_left none = none
  samples_left (some (n, x)) = some n

  samples_left_of_if :
      (b : Bool) (n : ℕ) (x : List (CacheResults f) × State)
      → samples_left (if b then some (n, x) else none) ≡ (if b then some n else none)
  samples_left_of_if true n x = refl
  samples_left_of_if false n x = refl

  -- If no result from the second to the last has a positive latency, as those not measured have none,
  -- one sample is left where the first has a positive one: each size is measured again, but the next
  -- one is looked at. Where the first has none either, the loop runs off the array.
  pub samples_left-discard :
      (samples : ℕ) (x : List (CacheResults f) × State)
      → ((i : ℕ) → 0 < i → i ≤ samples → is_positive x.0 i ≡ false)
      → samples_left (discard f machine (suc samples) x)
        ≡ (if is_positive x.0 0 then some 1 else none)
  unfolding discard
  samples_left-discard zero x h = samples_left_of_if (is_positive x.0 0) 1 x
  samples_left-discard (suc samples) x h =
      let next = measure_at f machine (suc samples) x in
      let last : is_positive x.0 (suc samples) ≡ false =
        h (suc samples) (omega arith) (omega arith) in
      let still = measure_at_ne (suc samples) 0 x (λ e. omega arith) in
      let rest =
        samples_left-discard samples next
          (λ i lo hi. measure_at_ne (suc samples) i x (λ e. omega arith) ∙ h i lo (omega arith)) in
      ap
        (λ (b : Bool).
          samples_left
            (if b then some (suc (suc samples), x) else discard f machine (suc samples) next))
        last
      ∙ rest
      ∙ ap (λ (b : Bool). if b then some 1 else none) still
