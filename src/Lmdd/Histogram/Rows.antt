-- ===== src/Lmdd/Histogram/Rows.antt =====
-- What the report of lmdd (lmbench3/src/lmdd.c, `done`) adds up to.
use mathlib.Core.Option.{some-injective}
use repo_support_tools.Base.{
  ℕ, zero, suc, ◌+◌, ◌*◌, ◌<◌, ◌≡◌, Option, none, some, List, [], ◌∷◌, ◌++◌, length, get_or, set,
  replicate, length-set, Bool-cases, inl, inr, refl, sym, arith, ap, ◌∙◌,
}
use repo_support_tools.Base.Int.{ℤ, pos, ◌+ℤ◌, ◌-ℤ◌, ltb_ℤ}
use repo_support_tools.Lmdd.Histogram.{
  step_of, find_bucket, bucket, count_in, Row, below, between, above, row_unless_zero, middle_rows,
  histogram_rows,
}

abbrev pub sum : List ℕ → ℕ
sum [] = 0
sum (n ∷ ns) = n + sum ns

abbrev pub row_count : Row → ℕ
row_count (below low n) = n
row_count (between low high n) = n
row_count (above high n) = n

-- the times that the lines of a report count
abbrev pub rows_total : List Row → ℕ
rows_total [] = 0
rows_total (r ∷ rs) = row_count r + rows_total rs

-- the histogram of a run
abbrev pub histogram_of : (max min : ℤ) → List ℕ → List ℕ → List ℕ
histogram_of max min [] hist = hist
histogram_of max min (m ∷ ms) hist = histogram_of max min ms (count_in (bucket m max min) hist)

-- the times of a run that have a bucket
abbrev pub counted : (max min : ℤ) → List ℕ → ℕ
counted max min [] = 0
counted max min (m ∷ ms) = (elim (bucket m max min) [ none ↦ 0 | some i ↦ 1 ]) + counted max min ms

rows_total-append : (rs ss : List Row) → rows_total (rs ++ ss) ≡ rows_total rs + rows_total ss
rows_total-append [] ss = omega arith
rows_total-append (r ∷ rs) ss = omega (arith, rows_total-append rs ss)

rows_total-row_unless_zero :
    (n : ℕ) (r : Row) → row_count r ≡ n → rows_total (row_unless_zero n r) ≡ n
rows_total-row_unless_zero n r e = ground arith

-- `k` entries from `i` on
range_sum : List ℕ → (i k : ℕ) → ℕ
range_sum hist i zero = 0
range_sum hist i (suc k) = get_or hist i 0 + range_sum hist (suc i) k

range_sum-cons : (x : ℕ) (xs : List ℕ) (i k : ℕ) → range_sum (x ∷ xs) (suc i) k ≡ range_sum xs i k
unfolding range_sum
range_sum-cons x xs i zero = refl
range_sum-cons x xs i (suc k) = ap (λ n. get_or xs i 0 + n) (range_sum-cons x xs (suc i) k)

range_sum-sum : (xs : List ℕ) → range_sum xs 0 (length xs) ≡ sum xs
unfolding range_sum
range_sum-sum [] = refl
range_sum-sum (x ∷ xs) = ap (λ n. x + n) (range_sum-cons x xs 0 (length xs) ∙ range_sum-sum xs)

rows_total-middle_rows :
    (hist : List ℕ) (step i k : ℕ) (size : ℤ)
    → rows_total (middle_rows hist step i k size) ≡ range_sum hist i k
unfolding middle_rows range_sum
rows_total-middle_rows hist step i zero size = refl
rows_total-middle_rows hist step i (suc k) size =
    let next : i + 1 ≡ suc i = omega arith in
    let rest =
      rows_total-middle_rows hist step (i + 1) k (size +ℤ pos step)
      ∙ ap (λ j. range_sum hist j k) next in
    omega (
      arith,
      rest,
      rows_total-append
          (row_unless_zero (get_or hist i 0)
            (between size (size +ℤ pos step -ℤ pos 1) (get_or hist i 0)))
          (middle_rows hist step (i + 1) k (size +ℤ pos step)),
      rows_total-row_unless_zero (get_or hist i 0)
          (between size (size +ℤ pos step -ℤ pos 1) (get_or hist i 0)) refl,
    )

rows_total-histogram_rows :
    (hist : List ℕ) (max min : ℤ)
    → length hist ≡ 12
    → rows_total (histogram_rows hist max min) ≡ sum hist
unfolding histogram_rows
rows_total-histogram_rows hist max min size =
    let first = row_unless_zero (get_or hist 0 0) (below min (get_or hist 0 0)) in
    let middle = middle_rows hist (step_of max min) 1 10 min in
    let last = row_unless_zero (get_or hist 11 0) (above max (get_or hist 11 0)) in
    let whole : range_sum hist 0 12 ≡ sum hist =
      ap (λ n. range_sum hist 0 n) (sym size) ∙ range_sum-sum hist in
    let parts : range_sum hist 0 12 ≡ get_or hist 0 0 + (range_sum hist 1 10 + get_or hist 11 0) =
      (unfold range_sum in omega arith) in
    omega (
      arith,
      whole,
      parts,
      rows_total-append first (middle ++ last),
      rows_total-append middle last,
      rows_total-row_unless_zero (get_or hist 0 0) (below min (get_or hist 0 0)) refl,
      rows_total-row_unless_zero (get_or hist 11 0) (above max (get_or hist 11 0)) refl,
      rows_total-middle_rows hist (step_of max min) 1 10 min,
    )

find_bucket-lt :
    (mills step : ℕ) (min : ℤ) (i k b : ℕ) → find_bucket mills step min i k ≡ some b → b < i + k
unfolding find_bucket
find_bucket-lt mills step min i zero b h = absurd (cc)
find_bucket-lt mills step min i (suc k) b h =
    elim (Bool-cases (ltb_ℤ (pos mills) (pos (i * step) +ℤ min))) [
      | inl e ↦ let here = some-injective _ _ (rw e at h) in omega arith
      | inr e ↦ let later = find_bucket-lt mills step min (i + 1) k b (rw e at h) in omega arith
    ]

bucket-lt : (mills : ℕ) (max min : ℤ) (b : ℕ) → bucket mills max min ≡ some b → b < 12
unfolding bucket
bucket-lt mills max min b h = elim (Bool-cases (ltb_ℤ (pos mills) max)) [
  | inr e ↦ let last = some-injective _ _ (rw e at h) in omega arith
  | inl e ↦ elim (Bool-cases (ltb_ℤ (pos mills) min)) [
    | inl e' ↦ let first = some-injective _ _ (rw (e, e') at h) in omega arith
    | inr e' ↦
        let b_lt = find_bucket-lt mills (step_of max min) min 1 10 b (rw (e, e') at h) in
        omega arith
  ]
]

sum-set : (xs : List ℕ) (i : ℕ) → i < length xs → sum (set xs i (get_or xs i 0 + 1)) ≡ sum xs + 1
sum-set [] i h = absurd (omega arith)
sum-set (x ∷ xs) zero h = omega arith
sum-set (x ∷ xs) (suc i) h = omega (arith, sum-set xs i (omega arith))

sum-histogram_of :
    (max min : ℤ) (ms hist : List ℕ)
    → length hist ≡ 12
    → (sum (histogram_of max min ms hist) ≡ sum hist + counted max min ms)
      × (length (histogram_of max min ms hist) ≡ 12)
sum-histogram_of max min [] hist size = (omega arith, size)
sum-histogram_of max min (m ∷ ms) hist size =
    step (sum-histogram_of max min ms) (bucket m max min) refl
  where
    step :
        ((h : List ℕ)
          → length h ≡ 12
          → (sum (histogram_of max min ms h) ≡ sum h + counted max min ms)
            × (length (histogram_of max min ms h) ≡ 12))
        → (b : Option ℕ) → bucket m max min ≡ b
        → (sum (histogram_of max min ms (count_in b hist))
            ≡ sum hist + ((elim b [ none ↦ 0 | some i ↦ 1 ]) + counted max min ms))
          × (length (histogram_of max min ms (count_in b hist)) ≡ 12)
    step ih none e = let rest = ih hist size in (omega arith, rest.1)
    step ih (some i) e =
        let small : i < length hist = omega (arith, bucket-lt m max min i e) in
        let rest = ih (count_in (some i) hist) (length-set hist i _ ∙ size) in
        (omega (arith, rest.0, sum-set hist i small), rest.1)

-- The lines that lmdd prints of a histogram count as many times as the run had in any bucket.
pub rows_total-counted :
    (max min : ℤ) (ms : List ℕ)
    → rows_total (histogram_rows (histogram_of max min ms (replicate 12 0)) max min)
      ≡ counted max min ms
rows_total-counted max min ms =
    let all = sum-histogram_of max min ms (replicate 12 0) refl in
    rows_total-histogram_rows (histogram_of max min ms (replicate 12 0)) max min all.1
    ∙ all.0
    ∙ omega arith
