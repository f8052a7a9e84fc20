-- ===== src/Timing/Results/Summary.antt =====
-- What `save_minimum` and `save_median` choose from a result set, and the room that
-- `sizeof_result` gives.
use repo_support_tools.Base.{
  ℕ, zero, suc, ◌+◌, ◌-◌, ◌*◌, ◌/◌, ◌%◌, ◌^◌, ◌≤◌, ◌<◌, ◌≡◌, true, false, List, [], ◌∷◌, get_or,
  length, All-get_or, get_or-take, length-take, arith, Bool-cases, inl, inr, ◌==◌, min,
}
use repo_support_tools.Doubles.{Doubles, IsOrdered}
use repo_support_tools.Timing.Results.{
  Value, Results, blank, slower, save_minimum, save_median, sizeof_result, sizeof_result_t,
  sizeof_value_t,
}
use repo_support_tools.Timing.Results.Place.{entries}
use repo_support_tools.Timing.Results.Order.{IsDescending, IsPositive, IsValid, slower_asymm}

module _ (f : Doubles) where
  descending-get_or :
      (l : List Value) (i j : ℕ)
      → IsDescending f l
      → i < j
      → j < length l
      → slower f (get_or l j blank) (get_or l i blank) ≡ false
  descending-get_or [] i j d h lt = absurd (omega arith)
  descending-get_or (x ∷ xs) i zero d h lt = absurd (omega arith)
  descending-get_or (x ∷ xs) zero (suc j) d h lt =
      All-get_or (λ w. slower f w x ≡ false) xs j blank d.0 (omega arith)
  descending-get_or (x ∷ xs) (suc i) (suc j) d h lt =
      descending-get_or xs i j d.1 (omega arith) (omega arith)

  -- Of two entries in use the later one is not slower.
  pub later-not-slower :
      (r : Results) (i j : ℕ)
      → IsValid f r
      → i < j
      → j < r.count
      → slower f (get_or r.v j blank) (get_or r.v i blank) ≡ false
  later-not-slower r i j v h lt =
      rw (← get_or-take r.v r.count j blank lt, ← get_or-take r.v r.count i blank (omega arith))
        (descending-get_or (entries r) i j v.descending h
          (let room = v.room in omega (arith, length-take r.count r.v)))

  slower_irrefl : IsOrdered f → (x : Value) → 0 < x.u → slower f x x ≡ false
  slower_irrefl o x pos = elim (Bool-cases (slower f x x)) [
    | inl e ↦ slower_asymm f o x x pos pos e
    | inr e ↦ e
  ]

  -- `save_minimum` chooses, from a result set that is not empty, an entry that is not slower than
  -- any entry in use.
  pub save_minimum-minimal :
      (o : IsOrdered f) (r : Results) (i : ℕ)
      → IsValid f r
      → i < r.count
      → slower f (save_minimum r) (get_or r.v i blank) ≡ false
  unfolding save_minimum
  save_minimum-minimal o r i v lt = elim (Bool-cases (i == r.count - 1)) [
    | inl e ↦
        let last : i ≡ r.count - 1 = ground arith in
        rw (not_empty, last)
          (slower_irrefl o (get_or r.v (r.count - 1) blank) (
            rw (← get_or-take r.v r.count (r.count - 1) blank (omega arith)) (
              All-get_or (IsPositive f) (entries r) (r.count - 1) blank v.positive
                (let room = v.room in omega (arith, length-take r.count r.v)))))
    | inr e ↦ rw not_empty (later-not-slower r i (r.count - 1) v (ground arith) (omega arith))
  ]
    where
      not_empty : (r.count == 0) ≡ false
      not_empty = ground arith

  -- With an odd number of entries `save_median` chooses the middle one: it is not slower than an
  -- entry before it, and no entry behind it is slower.
  pub save_median-middle :
      (r : Results) (i k : ℕ)
      → IsValid f r
      → r.count % 2 ≡ 1
      → i < r.count / 2
      → r.count / 2 < k
      → k < r.count
      → (slower f (save_median r) (get_or r.v i blank) ≡ false)
        × (slower f (get_or r.v k blank) (save_median r) ≡ false)
  unfolding save_median
  save_median-middle r i k v odd hi hk lt =
      let not_empty : (r.count == 0) ≡ false = ground arith in
      let is_odd : (r.count % 2 == 1) ≡ true = ground arith in
      rw (not_empty, is_odd)
        (
          later-not-slower r i (r.count / 2) v hi (omega arith),
          later-not-slower r (r.count / 2) k v hk lt,
        )

-- the two entries in the middle of an even number of them
abbrev pub lower : Results → Value
lower r = get_or r.v (r.count / 2) blank

abbrev pub upper : Results → Value
upper r = get_or r.v (r.count / 2 - 1) blank

average-between :
    (a b : ℕ)
    → a + b < 2 ^ 64
    → (min a b ≤ (a + b) % 2 ^ 64 / 2) × ((a + b) % 2 ^ 64 / 2 + min a b ≤ a + b)
average-between a b h = omega arith

-- With an even number of entries, not 0, the time and the count that `save_median` gives lie
-- between those of the two middle entries, if their sums fit 64 bits.
save_median-between :
    (r : Results)
    → 0 < r.count
    → r.count % 2 ≡ 0
    → (lower r).u + (upper r).u < 2 ^ 64
    → (lower r).n + (upper r).n < 2 ^ 64
    → (min (lower r).u (upper r).u ≤ (save_median r).u)
      × ((save_median r).u + min (lower r).u (upper r).u ≤ (lower r).u + (upper r).u)
      × (min (lower r).n (upper r).n ≤ (save_median r).n)
      × ((save_median r).n + min (lower r).n (upper r).n ≤ (lower r).n + (upper r).n)
unfolding save_median
save_median-between r pos even hu hn =
    let not_empty : (r.count == 0) ≡ false = ground arith in
    let is_even : (r.count % 2 == 1) ≡ false = ground arith in
    let time = average-between (lower r).u (upper r).u hu in
    let count = average-between (lower r).n (upper r).n hn in
    rw (not_empty, is_even) (time.0, time.1, count.0, count.1)

-- A block of `sizeof_result(repetitions)` bytes holds the head of a `result_t` and at least
-- `repetitions` entries, and never fewer than a plain `result_t` has.
sizeof_result-room :
    (repetitions : ℕ)
    → (8 + repetitions * sizeof_value_t ≤ sizeof_result repetitions)
      × (sizeof_result_t ≤ sizeof_result repetitions)
unfolding sizeof_result
sizeof_result-room repetitions = ground arith
