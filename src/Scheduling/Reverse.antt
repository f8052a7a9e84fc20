-- ===== src/Scheduling/Reverse.antt =====
-- `reverse_bits` and the unique placement of lmbench3/src/lib_sched.c.
use native.Mathlib.Nat.{
  pow-suc, pow-le-pow_right, add-mul-div_right, div-eq_of_lt, add-mul-mod_self_right, mod-eq_of_lt,
}
use native.Mathlib.Numerals.{add-one}
use mathlib.Core.Option.{some-injective}
use repo_support_tools.Base.{
  ℕ, ◌+◌, ◌-◌, ◌*◌, ◌/◌, ◌%◌, ◌^◌, ◌≤◌, ◌<◌, ◌≡◌, refl, sym, ap, ◌∙◌, arith, dec_lt,
}
use repo_support_tools.Bits.{count_bits}
use repo_support_tools.Bits.Reversal.{
  reversal, reversal-lt, reversal-reversal, reverse_loop-all, count_bits-log2, count_bits-zero,
}
use repo_support_tools.Memory.Words.Order.{log2_unique}
use repo_support_tools.Scheduling.{reverse_bits, handle_scheduler, unique}

-- A power of 2 of processors needs as many bits as its exponent says.
nbits_power : (m : ℕ) → count_bits ((2 ^ (m + 1) - 1) / 2) 1 ≡ m + 1
nbits_power m =
    let double : 2 ^ (m + 1) ≡ 2 ^ m * 2 = rw (add-one m, pow-suc) refl in
    let some_cpu : 1 ≤ 2 ^ m =
      pow-le-pow_right {n = 2} (omega arith) {i = 0} {j = m} (omega arith) in
    let half : (2 ^ (m + 1) - 1) / 2 ≡ 2 ^ m - 1 = omega arith in
    elim (dec_lt 1 (2 ^ m)) [
      | no few ↦
          let none_left : 2 ^ m - 1 ≡ 0 = omega arith in
          let m_zero = log2_unique 0 m 1 (omega arith) (omega arith) (omega arith) (omega arith) in
          rw (half, none_left, count_bits-zero) (omega arith)
      | yes more ↦
          let (n, e, low, high) = count_bits-log2 (2 ^ m - 1) 1 (omega arith) in
          let next : 2 ^ (n + 1) ≡ 2 ^ n * 2 = rw (add-one n, pow-suc) refl in
          let next' : 2 ^ (n + 1 + 1) ≡ 2 ^ (n + 1) * 2 = rw (add-one (n + 1), pow-suc) refl in
          let same =
            log2_unique (n + 1) m (2 ^ (m + 1) - 1) (omega arith) (omega arith) (omega arith)
              (omega arith) in
          rw (half, e) (omega arith)
    ]

reverse_bits-reversal : (m cpu : ℕ) → reverse_bits (2 ^ (m + 1)) cpu ≡ reversal (m + 1) cpu
unfolding reverse_bits
reverse_bits-reversal m cpu = rw (nbits_power m, reverse_loop-all)

-- On a host of a power of 2 of processors, at least 2, `reverse_bits` gives a processor of the host,
-- and gives the first one back when it is applied again: it is a permutation.
pub reverse_bits-involution :
    (m cpu : ℕ)
    → cpu < 2 ^ (m + 1)
    → (reverse_bits (2 ^ (m + 1)) cpu < 2 ^ (m + 1))
      × (reverse_bits (2 ^ (m + 1)) (reverse_bits (2 ^ (m + 1)) cpu) ≡ cpu)
reverse_bits-involution m cpu h = (
  rw (reverse_bits-reversal m cpu) (reversal-lt (m + 1) cpu),
  rw (reverse_bits-reversal m cpu, reverse_bits-reversal m (reversal (m + 1) cpu))
      (reversal-reversal (m + 1) cpu h),
)

split : (c b n : ℕ) → b ≤ n → ((c * (n + 1) + b) / (n + 1) ≡ c) × ((c * (n + 1) + b) % (n + 1) ≡ b)
split c b n h =
    let order : c * (n + 1) + b ≡ b + c * (n + 1) = omega arith in
    let pos : 0 < n + 1 = omega arith in
    let small : b < n + 1 = omega arith in
    rw order (
      rw (add-mul-div_right b c pos, div-eq_of_lt small) (omega arith),
      rw (add-mul-mod_self_right b c (n + 1), mod-eq_of_lt small) refl,
    )

-- Under UNIQUE, processes for whose numbers the host has processors share one only if they are the
-- same process of the same benchmark.
pub unique-injective :
    (ncpus c b c' b' n : ℕ)
    → b ≤ n
    → b' ≤ n
    → c * (n + 1) + b < ncpus
    → c' * (n + 1) + b' < ncpus
    → handle_scheduler ncpus unique c b n ≡ handle_scheduler ncpus unique c' b' n
    → (c ≡ c') × (b ≡ b')
unfolding handle_scheduler
unique-injective ncpus c b c' b' n h h' room room' e =
    let same = some-injective _ _ e in
    let same' : c * (n + 1) + b ≡ c' * (n + 1) + b' =
      sym (mod-eq_of_lt room) ∙ same ∙ mod-eq_of_lt room' in
    (
      sym (split c b n h).0 ∙ ap (λ x. x / (n + 1)) same' ∙ (split c' b' n h').0,
      sym (split c b n h).1 ∙ ap (λ x. x % (n + 1)) same' ∙ (split c' b' n h').1,
    )
