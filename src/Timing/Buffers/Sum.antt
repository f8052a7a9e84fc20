-- ===== src/Timing/Buffers/Sum.antt =====
-- What `bread` of lmbench3/src/lib_timing.c adds up.
use repo_support_tools.Base.{
  ℕ, zero, suc, ◌+◌, ◌*◌, ◌/◌, ◌%◌, ◌^◌, ◌≤◌, ◌<◌, ◌≡◌, List, get_or, leb, leb→le, refl, ap, ◌∙◌,
  arith, Bool-cases, inl, inr,
}
use repo_support_tools.Timing.Buffers.{unrolled, read_loop, bread}

-- the sum of the first `k` words, without a wrap
abbrev pub sum_first : List ℕ → ℕ → ℕ
sum_first words zero = 0
sum_first words (suc k) = sum_first words k + get_or words k 0

sum_first-unrolled :
    (words : List ℕ) (p k : ℕ) → sum_first words p + unrolled words p k ≡ sum_first words (p + k)
unfolding unrolled
sum_first-unrolled words p zero =
    let same : p + 0 ≡ p = omega arith in omega (arith, ap (sum_first words) same)
sum_first-unrolled words p (suc k) =
    let next : p + suc k ≡ suc (p + k) = omega arith in
    omega (arith, ap (sum_first words) next, sum_first-unrolled words p k)

add_mod :
    (sum n add total : ℕ)
    → sum ≡ n % 2 ^ 64
    → n + add ≡ total
    → (sum + add) % 2 ^ 64 ≡ total % 2 ^ 64
add_mod sum n add total e h = omega arith

module _ (words : List ℕ) (nbytes size : ℕ) (positive : 0 < size) where
  -- what a loop leaves: the sum up to `p`, inside the buffer, with less than a round to go
  abbrev Reaches : ℕ × ℕ → Type 0
  Reaches result =
      (result.1 ≡ sum_first words result.0 % 2 ^ 64)
      × (8 * result.0 ≤ nbytes)
      × (nbytes < 8 * (result.0 + size))

  read_loop-Reaches :
      (fuel p sum : ℕ)
      → sum ≡ sum_first words p % 2 ^ 64
      → 8 * p ≤ nbytes
      → nbytes < 8 * (p + size) + fuel
      → Reaches (read_loop words nbytes size fuel p sum)
  unfolding read_loop
  read_loop-Reaches zero p sum e lo hi = (e, lo, omega arith)
  read_loop-Reaches (suc fuel) p sum e lo hi = elim (Bool-cases (leb (8 * (p + size)) nbytes)) [
    | inl more ↦ rw more (
        read_loop-Reaches fuel (p + size) _ (add_mod sum _ _ _ e (sum_first-unrolled words p size))
          (leb→le _ _ more) (omega arith))
    | inr done ↦ rw done (e, lo, ground arith)
  ]

-- `bread` of a buffer of whole words adds up all of them, whatever it reads in blocks of 128 and of
-- 16 words; bytes behind the last whole word are left out.
pub bread-sum_first :
    (words : List ℕ) (nbytes : ℕ) → bread words nbytes ≡ sum_first words (nbytes / 8) % 2 ^ 64
unfolding bread
bread-sum_first words nbytes =
    let large = read_loop words nbytes 128 nbytes 0 0 in
    let small = read_loop words nbytes 16 nbytes large.0 large.1 in
    let h =
      read_loop-Reaches words nbytes 128 (omega arith) nbytes 0 0 refl (omega arith)
        (omega arith) in
    let h' =
      read_loop-Reaches words nbytes 16 (omega arith) nbytes large.0 large.1 h.0 h.1
        (omega arith) in
    let all =
      read_loop-Reaches words nbytes 1 (omega arith) nbytes small.0 small.1 h'.0 h'.1
        (omega arith) in
    let whole : (read_loop words nbytes 1 nbytes small.0 small.1).0 ≡ nbytes / 8 =
      omega (arith, all.1, all.2) in
    all.0 ∙ ap (λ n. sum_first words n % 2 ^ 64) whole
