-- ===== src/Cache/Collect/Searched.antt =====
-- `search` of lmbench3/src/cache.c ends, and what it changes.
use mathlib.Core.Path.{subst}
use repo_support_tools.Base.{
  ℕ, zero, suc, ◌+◌, ◌-◌, ◌/◌, ◌≤◌, ◌<◌, ◌≡◌, ◌⊎◌, false, ◌||◌, not, List, [], ◌∷◌, Option, some,
  set, get_or-set_ne, refl, sym, ap, ◌∙◌, arith, Bool-cases, inl, inr, ltb, ◌==◌, or_false,
}
use repo_support_tools.Doubles.{Doubles}
use repo_support_tools.Cache.Levels.{CacheResults, result_at}
use repo_support_tools.Cache.Measure.{Machine, State, measure, page_count}
use repo_support_tools.Cache.Chunks.{spare_modulus}
use repo_support_tools.Cache.Tests.Ends.{IsResult, test_chunk-IsResult}
use repo_support_tools.Cache.Collect.{
  improve, improve_sample, collect_sample, relate, is_edge, search,
}

module _ (f : Doubles) (machine : Machine) where
  open f use {D}

  abbrev pub len_at : List (CacheResults f) → ℕ → ℕ
  len_at p i = (result_at f p i).len

  len_at-set :
      (p : List (CacheResults f)) (k i : ℕ) (v : CacheResults f)
      → v.len ≡ len_at p k
      → len_at (set p k v) i ≡ len_at p i
  len_at-set [] k i v h = refl
  len_at-set (x ∷ p) zero zero v h = h
  len_at-set (x ∷ p) zero (suc i) v h = refl
  len_at-set (x ∷ p) (suc k) zero v h = refl
  len_at-set (x ∷ p) (suc k) (suc i) v h = len_at-set p k i v h

  relate-len :
      (left right : ℕ) (l r : CacheResults f) → (relate f machine left right l r).len ≡ l.len
  unfolding relate
  relate-len left right l r = elim (Bool-cases (f.lt (f.of_ℕ 0) l.latency)) [
    | inr never ↦ rw (never, relate) refl
    | inl positive ↦
        elim (Bool-cases (f.lt (f.div r.latency l.latency) (f.div (f.of_ℕ 98) (f.of_ℕ 100)))) [
          | inl bad ↦ rw (positive, bad, relate) refl
          | inr good ↦ rw (positive, good, relate) refl
        ]
  ]

  -- `sample` returns for the size `len`, and keeps it
  abbrev pub IsSampled : (CacheResults f → State → Option (CacheResults f × State)) → ℕ → Type 0
  IsSampled sample len =
      (r : CacheResults f) (s : State)
      → r.len ≡ len
      → (r' : CacheResults f) × (s' : State) × (sample r s ≡ some (r', s')) × (r'.len ≡ len)

  -- the sizes stay, and so do the results outside `left` and `right`
  abbrev pub IsChanged : (left right : ℕ) (p p' : List (CacheResults f)) → Type 0
  IsChanged left right p p' =
      ((i : ℕ) → len_at p' i ≡ len_at p i)
      × ((i : ℕ) → (i < left) ⊎ (right ≤ i) → result_at f p' i ≡ result_at f p i)

  set-IsChanged :
      (left right k : ℕ) (p : List (CacheResults f)) (v : CacheResults f)
      → left ≤ k
      → k < right
      → v.len ≡ len_at p k
      → IsChanged left right p (set p k v)
  set-IsChanged left right k p v lo hi h = (
    λ i. len_at-set p k i v h,
    λ i out.
        get_or-set_ne p k i v _
          (λ e. elim out [ inl below ↦ omega arith | inr above ↦ omega arith ]),
  )

  IsChanged-trans :
      (left right a b c d : ℕ) (p p' p'' : List (CacheResults f))
      → (left ≤ a) × (b ≤ right)
      → (left ≤ c) × (d ≤ right)
      → IsChanged a b p p'
      → IsChanged c d p' p''
      → IsChanged left right p p''
  IsChanged-trans left right a b c d p p' p'' h h' first second = (
    λ i. second.0 i ∙ first.0 i,
    λ i out. second.1 i (wider i c d h' out) ∙ first.1 i (wider i a b h out),
  )
    where
      wider : (i a b : ℕ) → (left ≤ a) × (b ≤ right) → (i < left) ⊎ (right ≤ i) → (i < a) ⊎ (b ≤ i)
      wider i a b h (inl below) = inl (omega (arith, h.0))
      wider i a b h (inr above) = inr (omega (arith, h.1))

  -- `search` ends, and changes the results between its ends only, and no size, where `sample` returns
  -- for each size between them: as many levels of calls as there are results between the ends are
  -- enough.
  search-IsChanged :
      (sample : CacheResults f → State → Option (CacheResults f × State)) (fuel left right : ℕ)
      (p : List (CacheResults f)) (s : State)
      → left < right
      → right - left ≤ fuel
      → ((i : ℕ) → left < i → i < right → IsSampled sample (len_at p i))
      → (p' : List (CacheResults f)) × (s' : State) × (search f machine sample fuel left right
            (p, s)
          ≡ some (p', s'))
        × IsChanged left right p p'
  unfolding search
  search-IsChanged sample zero left right p s h enough ok = absurd (omega arith)
  search-IsChanged sample (suc fuel) left right p s h enough ok =
      let middle = left + (right - left) / 2 in
      let l = relate f machine left right (result_at f p left) (result_at f p right) in
      let p1 = set p left l in
      let changed =
        set-IsChanged left right left p l (omega arith) h
          (relate-len left right (result_at f p left) (result_at f p right)) in
      elim (Bool-cases ((middle == left) || (middle == right))) [
        | inl stop ↦ (p1, s, rw (stop, search) refl, changed)
        | inr more ↦ elim (Bool-cases (not (is_edge f machine l))) [
          | inl flat ↦ (p1, s, rw (more, flat, search) refl, changed)
          | inr edge ↦
              let ne = or_false (middle == left) (middle == right) more in
              let lo : left < middle = ground arith in
              let hi : middle < right = ground arith in
              let (r, s1, e1, same) =
                ok middle lo hi (result_at f p1 middle) s (changed.0 middle) in
              let p2 = set p1 middle r in
              let changed2 =
                IsChanged-trans left right left right left right p p1 p2 (omega arith, omega arith)
                  (omega arith, omega arith) changed
                  (set-IsChanged left right middle p1 r (omega arith) hi
                    (same ∙ sym (changed.0 middle))) in
              let (p3, s3, e3, changed3) =
                search-IsChanged sample fuel middle right p2 s1 hi (omega arith)
                  (λ i a b. subst (IsSampled sample) (sym (changed2.0 i)) (ok i (omega arith) b)) in
              let changed_3 =
                IsChanged-trans left right left right middle right p p2 p3
                  (omega arith, omega arith) (omega arith, omega arith) changed2 changed3 in
              let (p4, s4, e4, changed4) =
                search-IsChanged sample fuel left middle p3 s3 lo (omega arith) (λ i a b.
                  subst (IsSampled sample) (sym (changed_3.0 i)) (ok i a (omega arith))) in
              (
                p4,
                s4,
                rw (more, edge, e1, e3, search) e4,
                IsChanged-trans left right left right left middle p p3 p4 (omega arith, omega arith)
                    (omega arith, omega arith) changed_3 changed4,
              )
        ]
      ]

  -- the number of pages of a size: there is not exactly one more in the memory
  abbrev pub IsSafe : ℕ → Type 0
  IsSafe len =
      let npages = page_count machine len in
      1 < npages → (spare_modulus f machine npages npages len == 0) ≡ false

  improve-IsResult :
      (len rounds : ℕ) (baseline : D) (s : State)
      → (let npages = page_count machine len in
          (spare_modulus f machine npages npages len == 0) ≡ false)
      → 1 < page_count machine len
      → IsResult (improve f machine (page_count machine len) len rounds baseline s)
  unfolding improve
  improve-IsResult len zero baseline s safe many = ((baseline, s), refl)
  improve-IsResult len (suc rounds) baseline s safe many =
      let npages = page_count machine len in
      let ((changed, baseline', s'), e) =
        test_chunk-IsResult f machine npages len npages 0 npages baseline (f.of_ℕ 0) s safe many
          (omega arith) (omega arith) in
      let rest = improve-IsResult len rounds baseline' s' safe many in
      elim (Bool-cases changed) [
        | inl yes' ↦ let e' = e ∙ ap (λ b. some (b, baseline', s')) yes' in rw (e', improve) rest
        | inr no' ↦
            let e' = e ∙ ap (λ b. some (b, baseline', s')) no' in
            rw (e', improve) ((baseline', s'), refl)
      ]

  improve_sample-IsResult :
      (len : ℕ) (baseline : D) (s : State)
      → IsSafe len
      → IsResult (improve_sample f machine len baseline s)
  unfolding improve_sample
  improve_sample-IsResult len baseline s safe = elim (Bool-cases (ltb 1 (page_count machine len))) [
    | inl many ↦
        let many' : 1 < page_count machine len = ground arith in
        rw (many, improve_sample) (improve-IsResult len 8 baseline s (safe many') many')
    | inr one ↦ rw (one, improve_sample) ((baseline, s), refl)
  ]

  collect_sample-IsSampled : (len : ℕ) → IsSafe len → IsSampled (collect_sample f machine) len
  unfolding collect_sample
  collect_sample-IsSampled len safe r s same =
      let m = measure machine f r.len s in
      let safe' = subst IsSafe (sym same) safe in
      let ((baseline, after), e) = improve_sample-IsResult r.len m.0.0 m.1 safe' in
      (record r { variation = m.0.1; latency = baseline }, after, rw (e, collect_sample) refl, same)

  -- The search of `collect_data` between two sizes ends, changes the results between them only, and no
  -- size, where for no size between them the memory has exactly one page more than the size: as many
  -- levels of calls as there are results between the ends are enough.
  pub search_lem :
      (left right : ℕ) (p : List (CacheResults f)) (s : State)
      → left < right
      → ((i : ℕ) → left < i → i < right → IsSafe (len_at p i))
      → (p' : List (CacheResults f)) × (s' : State) × (search f machine
            (collect_sample f machine)
            (right - left)
            left
            right
            (p, s)
          ≡ some (p', s'))
        × IsChanged left right p p'
  search_lem left right p s h safe =
      search-IsChanged (collect_sample f machine) (right - left) left right p s h (omega arith)
        (λ i lo hi. collect_sample-IsSampled (len_at p i) (safe i lo hi))
