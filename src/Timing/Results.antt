-- ===== src/Timing/Results.antt =====
-- The result set of lmbench3/src/lib_timing.c: `result_t` of bench.h, `insertinit`, `insertsort`,
-- `save_minimum`, `save_median` and `sizeof_result`.
pub mod Place
pub mod Order
pub mod Summary
use repo_support_tools.Base.{
  ℕ, zero, suc, ◌+◌, ◌-◌, ◌*◌, ◌/◌, ◌%◌, ◌^◌, Bool, List, [], ◌∷◌, get_or, set, leb, ltb, ◌==◌,
  if◌then◌else◌,
}
use repo_support_tools.Doubles.{Doubles}

-- `value_t`: `u` microseconds for `n` iterations
pub record Value : Type 0 where
  pub u : ℕ
  pub n : ℕ

-- `result_t`: `v` is the array that was allocated, of which the first `count` entries (`N`) are used
pub record Results : Type 0 where
  pub count : ℕ
  pub v : List Value

-- what a read past the array would give: never used, by the bounds that are proved
abbrev pub blank : Value
blank = record { u = 0; n = 0 }

abbrev pub tries : ℕ
tries = 11

-- the sizes in bytes of `value_t` and of `result_t` (an `int`, its padding and the array)
abbrev pub sizeof_value_t : ℕ
sizeof_value_t = 16

abbrev pub sizeof_result_t : ℕ
sizeof_result_t = 8 + tries * sizeof_value_t

unfoldable pub sizeof_result : ℕ → ℕ
sizeof_result repetitions =
    if leb repetitions tries
    then sizeof_result_t
    else sizeof_result_t + (repetitions - tries) * sizeof_value_t

unfoldable pub insertinit : Results → Results
insertinit r = record r { count = 0 }

-- the `for` over `j`, with `k` rounds left: `j` runs from `i + k` down to `i + 1`
unfoldable pub shift : List Value → ℕ → ℕ → List Value
shift v i zero = v
shift v i (suc k) = shift (set v (suc (i + k)) (get_or v (i + k) blank)) i k

module _ (f : Doubles) where
  open f use {D, of_ℕ, div, lt}

  -- `u/(double)n > w.u/(double)w.n`
  unfoldable pub slower : Value → Value → Bool
  slower x w = lt (div (of_ℕ w.u) (of_ℕ w.n)) (div (of_ℕ x.u) (of_ℕ x.n))

  -- the `for` over `i`, with `k` rounds left: where it breaks, or the end
  unfoldable pub scan : Value → List Value → ℕ → ℕ → ℕ
  scan x v i zero = i
  scan x v i (suc k) = if slower x (get_or v i blank) then i else scan x v (i + 1) k

  -- Where the scan runs to the end there is nothing to shift, as in the source.
  unfoldable pub insertsort : ℕ → ℕ → Results → Results
  insertsort u n r =
      if u == 0
      then r
      else let x : Value = record { u = u; n = n } in
        let i = scan x r.v 0 r.count in
        record { count = r.count + 1; v = set (shift r.v i (r.count - i)) i x }

-- `save_n(n); settime(u)` with the values that the functions choose
unfoldable pub save_minimum : Results → Value
save_minimum r = if r.count == 0 then record { u = 0; n = 1 } else get_or r.v (r.count - 1) blank

unfoldable pub save_median : Results → Value
save_median r =
    let i = r.count / 2 in
    if r.count == 0
    then record { u = 0; n = 1 }
    else if r.count % 2 == 1
    then get_or r.v i blank
    else let a = get_or r.v i blank in
      let b = get_or r.v (i - 1) blank in
      record { u = (a.u + b.u) % 2 ^ 64 / 2; n = (a.n + b.n) % 2 ^ 64 / 2 }

-- `for (i = 0; i < N; ++i) { BENCH1(...); if (gettime() > 0) insertsort(gettime(), get_n(), &r); }`
-- over the times and counts that the runs give; a time of 0 is dropped by `insertsort` too.
module _ (f : Doubles) where
  unfoldable pub collect : List Value → Results → Results
  collect [] r = r
  collect (m ∷ ms) r = collect ms (if ltb 0 m.u then insertsort f m.u m.n r else r)

  -- the same loop without the test
  abbrev pub insert_all : List Value → Results → Results
  insert_all [] r = r
  insert_all (m ∷ ms) r = insert_all ms (insertsort f m.u m.n r)
