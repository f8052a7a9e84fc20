-- ===== src/Memory/Words/Order.antt =====
-- Which orders `words_initialize` gives.
use native.Mathlib.Nat.{pow-suc, pow-le-pow_right, mul-le-mul_right, add-zero, zero-add}
use native.Mathlib.Numerals.{add-one}
use mathlib.Core.Path.{subst}
use mathlib.Core.Option.{some-injective}
use repo_support_tools.Base.{
  ℕ, zero, suc, ◌+◌, ◌*◌, ◌/◌, ◌%◌, ◌^◌, ◌≤◌, ◌<◌, ◌≡◌, refl, ap, ◌∙◌, List, some, true, get_or,
  length, arith, dec_lt,
}
use repo_support_tools.Bits.{count_bits}
use repo_support_tools.Bits.Reversal.{
  reversal, reversal-lt, reversal-reversal, reverse_loop-all, count_bits-log2, count_bits-zero,
  reversal-zero, reversal-high,
}
use repo_support_tools.Memory.Words.{words_from, words_initialize}

pub length-words_from : (nbits scale i k : ℕ) → length (words_from nbits scale i k) ≡ k
unfolding words_from
length-words_from nbits scale i zero = refl
length-words_from nbits scale i (suc k) = ap suc (length-words_from nbits scale (i + 1) k)

words_from-get_or :
    (nbits scale i k j : ℕ)
    → j < k
    → get_or (words_from nbits scale i k) j 0 ≡ reversal nbits (i + j) * scale % 2 ^ 64
unfolding words_from
words_from-get_or nbits scale i zero j h = absurd (omega arith)
words_from-get_or nbits scale i (suc k) zero h = rw (reverse_loop-all, add-zero)
words_from-get_or nbits scale i (suc k) (suc j) h =
    let shifted : i + 1 + j ≡ i + suc j = omega arith in
    rw (words_from-get_or nbits scale (i + 1) k j (omega arith), shifted)

-- A number has one length.
pub log2_unique : (n k i : ℕ) → 2 ^ n ≤ i → i < 2 ^ (n + 1) → 2 ^ k ≤ i → i < 2 ^ (k + 1) → n ≡ k
log2_unique n k i ln hn lk hk = elim (dec_lt n k) [
  | yes p ↦
      absurd
        (omega (arith, pow-le-pow_right {n = 2} (omega arith) {i = n + 1} {j = k} (omega arith)))
  | no p ↦ elim (dec_lt k n) [
    | yes q ↦
        absurd
          (omega (arith, pow-le-pow_right {n = 2} (omega arith) {i = k + 1} {j = n} (omega arith)))
    | no q ↦ omega arith
  ]
]

-- `nbits` is the logarithm of `max` to base 2, rounded down.
nbits-log2 : (k max : ℕ) → 2 ^ k ≤ max → max < 2 ^ (k + 1) → count_bits (max / 2) 0 ≡ k
nbits-log2 k max lo hi =
    let some_word : 1 ≤ 2 ^ k =
      pow-le-pow_right {n = 2} (omega arith) {i = 0} {j = k} (omega arith) in
    elim (dec_lt 0 (max / 2)) [
      | no small ↦
          let none_left : max / 2 ≡ 0 = omega arith in
          rw (none_left, count_bits-zero) (log2_unique 0 k max (omega arith) (omega arith) lo hi)
      | yes more ↦
          let (n, e, low, high) = count_bits-log2 (max / 2) 0 more in
          let low' : 2 ^ n * 2 ≤ max = omega arith in
          let high' : max < 2 ^ (n + 1) * 2 = omega arith in
          let same : n + 1 ≡ k =
            log2_unique (n + 1) k max (rw (add-one n, pow-suc) low')
              (rw (add-one (n + 1), pow-suc) high') lo hi in
          omega arith
    ]

module _ (k max scale : ℕ) (lo : 2 ^ k ≤ max) (hi : max < 2 ^ (k + 1)) where
  -- The offset that `words_initialize` puts at index `i`.
  word-reversal :
      (words : List ℕ) (i : ℕ)
      → words_initialize true max scale ≡ some words
      → i < max
      → get_or words i 0 ≡ reversal k i * scale % 2 ^ 64
  unfolding words_initialize
  word-reversal words i e h =
      subst (λ l. get_or l i 0 ≡ reversal k i * scale % 2 ^ 64) (some-injective _ _ e)
        (rw (nbits-log2 k max lo hi, words_from-get_or k scale 0 max i h, zero-add))

no_wrap : (j m scale : ℕ) → j < m → m * scale ≤ 2 ^ 64 → j * scale % 2 ^ 64 ≡ j * scale
no_wrap j m zero h fits = omega arith
no_wrap j m (suc scale) h fits =
    let below : suc j * suc scale ≤ m * suc scale = mul-le-mul_right (suc scale) h in omega arith

-- For a number of words that is a power of 2, with offsets that fit 64 bits, `words_initialize`
-- gives a rearrangement of the multiples of `scale`: index `i` holds a multiple `j` of it, and
-- index `j` holds the multiple `i`.
pub words_initialize-involution :
    (k scale i : ℕ) {words : List ℕ}
    → words_initialize true (2 ^ k) scale ≡ some words
    → 2 ^ k * scale ≤ 2 ^ 64
    → i < 2 ^ k
    → (j : ℕ) × (j < 2 ^ k) × (get_or words i 0 ≡ j * scale) × (get_or words j 0 ≡ i * scale)
words_initialize-involution k scale i {words} e fits h =
    let whole : 2 ^ k < 2 ^ (k + 1) = rw (add-one k, pow-suc) (omega arith) in
    (
      reversal k i,
      reversal-lt k i,
      word-reversal k (2 ^ k) scale (omega arith) whole words i e h
          ∙ no_wrap (reversal k i) (2 ^ k) scale (reversal-lt k i) fits,
      word-reversal k (2 ^ k) scale (omega arith) whole words (reversal k i) e (reversal-lt k i)
          ∙ ap (λ (x : ℕ). x * scale % 2 ^ 64) (reversal-reversal k i h)
          ∙ no_wrap i (2 ^ k) scale h fits,
    )

-- For a number of words that is no power of 2, `words_initialize` gives index 2^k, with 2^k the
-- greatest power of 2 below that number, the same offset as index 0.
pub words_initialize-collision :
    (k max scale : ℕ) {words : List ℕ}
    → 2 ^ k < max
    → max < 2 ^ (k + 1)
    → words_initialize true max scale ≡ some words
    → (get_or words (2 ^ k) 0 ≡ get_or words 0 0)
words_initialize-collision k max scale {words} lo hi e =
    let low : 2 ^ k ≤ max = omega arith in
    rw (
      word-reversal k max scale low hi words (2 ^ k) e lo,
      word-reversal k max scale low hi words 0 e (omega arith),
      reversal-high,
      reversal-zero,
    )

-- With memory there is an array.
pub words_initialize-made :
    (max scale : ℕ) → (words : List ℕ) × (words_initialize true max scale ≡ some words)
unfolding words_initialize
words_initialize-made max scale = (words_from (count_bits (max / 2) 0) scale 0 max, refl)
