-- ===== src/Bits/Reversal.antt =====
-- The bit reversal of a fixed width is its own inverse.
use native.Mathlib.Nat.{pow-suc, div-div-eq-div-mul, zero-add}
use native.Mathlib.Numerals.{add-one}
use repo_support_tools.Base.{
  ℕ, zero, suc, ◌+◌, ◌*◌, ◌/◌, ◌%◌, ◌^◌, ◌≤◌, ◌<◌, ◌≡◌, refl, ◌⊎◌, inl, inr, ap, ◌==◌, false, arith,
  dec_lt,
}
use repo_support_tools.Bits.{count_bits_fuel, count_bits, reverse_loop}

-- The lowest `n` bits of `i` in the opposite order.
unfoldable pub reversal : ℕ → ℕ → ℕ
reversal zero i = 0
reversal (suc n) i = i % 2 * 2 ^ n + reversal n (i / 2)

reversal-suc : (n i : ℕ) → reversal (suc n) i ≡ i % 2 * 2 ^ n + reversal n (i / 2)
unfolding reversal
reversal-suc n i = refl

bit-cases : (i : ℕ) → (i % 2 ≡ 0) ⊎ (i % 2 ≡ 1)
bit-cases i = omega arith

pub reversal-lt : (n i : ℕ) → reversal n i < 2 ^ n
reversal-lt zero i = unfold reversal in omega arith
reversal-lt (suc n) i = elim (bit-cases i) [
  | inl e ↦ rw (reversal-suc, e, pow-suc) (omega (arith, reversal-lt n (i / 2)))
  | inr e ↦ rw (reversal-suc, e, pow-suc) (omega (arith, reversal-lt n (i / 2)))
]

top-half : (n b m : ℕ) → (b * 2 ^ suc n + m) / 2 ≡ b * 2 ^ n + m / 2
top-half n b m = rw pow-suc (omega arith)

top-bit : (n b m : ℕ) → (b * 2 ^ suc n + m) % 2 ≡ m % 2
top-bit n b m = rw pow-suc (omega arith)

-- A bit in front of `n` bits comes out behind them.
reversal-top :
    (n b m : ℕ) → b < 2 → m < 2 ^ n → reversal (suc n) (b * 2 ^ n + m) ≡ 2 * reversal n m + b
reversal-top zero b m hb hm = unfold reversal in omega arith
reversal-top (suc n) b m hb hm =
    let half : m / 2 < 2 ^ n = (let h = rw pow-suc at hm in omega arith) in
    rw
      (
        reversal-suc (suc n) (b * 2 ^ suc n + m),
        top-half n b m,
        top-bit n b m,
        reversal-top n b (m / 2) hb half,
        reversal-suc n m,
        pow-suc,
      )
      (omega arith)

-- Reversing `n` bits twice gives the number back.
pub reversal-reversal : (n i : ℕ) → i < 2 ^ n → reversal n (reversal n i) ≡ i
reversal-reversal zero i h = unfold reversal in omega arith
reversal-reversal (suc n) i h =
    let half : i / 2 < 2 ^ n = (let h' = rw pow-suc at h in omega arith) in
    rw
      (
        reversal-suc n i,
        reversal-top n (i % 2) (reversal n (i / 2)) (omega arith) (reversal-lt n (i / 2)),
        reversal-reversal n (i / 2) half,
      )
      (omega arith)

-- The loop puts the reversal of the bits that are left behind what it has.
pub reverse_loop-reversal : (i k j r : ℕ) → reverse_loop i k j r ≡ r + reversal k (i / 2 ^ j)
unfolding reverse_loop
reverse_loop-reversal i zero j r = unfold reversal in omega arith
reverse_loop-reversal i (suc k) j r =
    let next : i / 2 ^ (j + 1) ≡ i / 2 ^ j / 2 = rw (add-one, pow-suc, div-div-eq-div-mul) in
    elim (bit-cases (i / 2 ^ j)) [
      | inl e ↦ rw (reverse_loop-reversal i k (j + 1) _, next, reversal-suc, e) (omega arith)
      | inr e ↦ rw (reverse_loop-reversal i k (j + 1) _, next, reversal-suc, e) (omega arith)
    ]

-- The loop over all `n` bits of `i` is the reversal of `n` bits.
pub reverse_loop-all : (n i : ℕ) → reverse_loop i n 0 0 ≡ reversal n i
reverse_loop-all n i = rw (reverse_loop-reversal i n 0 0, zero-add) (ap (reversal n) (omega arith))

module _ (fuel i c : ℕ) where
  -- What the loop has counted when it stops: the length of the binary number.
  abbrev Counted : Type 0
  Counted = (n : ℕ) × (count_bits_fuel fuel i c ≡ c + n + 1) × (2 ^ n ≤ i) × (i < 2 ^ (n + 1))

count_bits_fuel-zero : (fuel c : ℕ) → count_bits_fuel fuel 0 c ≡ c
unfolding count_bits_fuel
count_bits_fuel-zero zero c = refl
count_bits_fuel-zero (suc fuel) c = refl

count_bits_fuel-log2 : (fuel i c : ℕ) → i ≤ fuel → 0 < i → Counted fuel i c
unfolding count_bits_fuel
count_bits_fuel-log2 zero i c le h = absurd (omega arith)
count_bits_fuel-log2 (suc fuel) i c le h =
    let running : (i == 0) ≡ false = ground arith in
    elim (dec_lt 0 (i / 2)) [
      | no last ↦
          let none_left : i / 2 ≡ 0 = omega arith in
          (0, rw (running, none_left, count_bits_fuel-zero) (omega arith), omega arith, omega arith)
      | yes more ↦
          let (n, e, lo, hi) = count_bits_fuel-log2 fuel (i / 2) (c + 1) (omega arith) more in
          (
            n + 1,
            rw (running, e) (omega arith),
            (let low : 2 ^ n * 2 ≤ i = omega arith in rw (add-one n, pow-suc) low),
            (let high : i < 2 ^ (n + 1) * 2 = omega arith in rw (add-one (n + 1), pow-suc) high),
          )
    ]

-- The bit loops count the bits of `i`: `n` bits where 2^(n - 1) ≤ i < 2^n.
pub count_bits-log2 :
    (i c : ℕ) → 0 < i → (n : ℕ) × (count_bits i c ≡ c + n + 1) × (2 ^ n ≤ i) × (i < 2 ^ (n + 1))
unfolding count_bits
count_bits-log2 i c h = count_bits_fuel-log2 i i c (omega arith) h

pub count_bits-zero : (c : ℕ) → count_bits 0 c ≡ c
unfolding count_bits
count_bits-zero c = count_bits_fuel-zero 0 c

pub reversal-zero : (n : ℕ) → reversal n 0 ≡ 0
reversal-zero zero = unfold reversal in refl
reversal-zero (suc n) = rw (reversal-suc n 0) (omega (arith, reversal-zero n))

-- Only the lowest `n` bits count.
pub reversal-high : (n : ℕ) → reversal n (2 ^ n) ≡ 0
reversal-high zero = unfold reversal in refl
reversal-high (suc n) =
    let even : 2 ^ suc n % 2 ≡ 0 = rw pow-suc (omega arith) in
    let half : 2 ^ suc n / 2 ≡ 2 ^ n = rw pow-suc (omega arith) in
    rw (reversal-suc n (2 ^ suc n), even, half) (omega (arith, reversal-high n))
