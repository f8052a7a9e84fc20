-- ===== src/Memory/Shuffle/Distinct.antt =====
-- The array that `permutation` returns holds different multiples of `scale`.
use Prim.Native.Nat.{bit_xor}
use native.Mathlib.Nat.{mul-le-mul_right, mul-mod_left, zero-add, add-zero}
use repo_support_tools.Base.{
  ℕ, zero, suc, ◌+◌, ◌-◌, ◌*◌, ◌%◌, ◌^◌, ◌≤◌, ◌<◌, ◌≡◌, sym, ◌∙◌, List, some, true, false,
  if◌then◌else◌, ◌==◌, get_or, set, length, length-set, get_or-set_self, get_or-set_ne, arith,
  ℕ_discrete, mul_inj,
}
use repo_support_tools.Memory.Shuffle.{
  Environment, Shuffle, multiples, swap, seed, shuffle, permutation,
}
use repo_support_tools.Memory.Shuffle.Rearranges.{length-swap, length-multiples}

pub get_or-swap :
    (i j x : ℕ) (l : List ℕ)
    → i < length l
    → j < length l
    → get_or (swap i j l) x 0
      ≡ (if x == i then get_or l j 0 else if x == j then get_or l i 0 else get_or l x 0)
unfolding swap
get_or-swap i j x l hi hj = elim (ℕ_discrete i x) [
  | yes e ↦ ground (
    arith,
    get_or-set_self (set l j (get_or l i 0)) i (get_or l j 0) 0,
    length-set l j (get_or l i 0),
  )
  | no ne ↦ elim (ℕ_discrete j x) [
    | yes e ↦ ground (
      arith,
      get_or-set_ne (set l j (get_or l i 0)) i x (get_or l j 0) 0 ne,
      get_or-set_self l j (get_or l i 0) 0,
    )
    | no ne' ↦ ground (
      arith,
      get_or-set_ne (set l j (get_or l i 0)) i x (get_or l j 0) 0 ne,
      get_or-set_ne l j x (get_or l i 0) 0 ne',
    )
  ]
]

-- `max` different multiples of `scale`.
pub record IsLayout (scale max : ℕ) (l : List ℕ) : Type 0 where
  pub size : length l ≡ max
  pub multiple : (x : ℕ) → x < max → get_or l x 0 % scale ≡ 0
  pub distinct : (x y : ℕ) → x < max → y < max → get_or l x 0 ≡ get_or l y 0 → x ≡ y

swap-IsLayout :
    (scale max i j : ℕ) (l : List ℕ)
    → IsLayout scale max l
    → i < max
    → j < max
    → IsLayout scale max (swap i j l)
swap-IsLayout scale max i j l v hi hj =
    let same = v.size in
    let li : i < length l = omega arith in
    let lj : j < length l = omega arith in
    record {
      size = omega (arith, length-swap i j l);
      multiple = λ x h.
          ground
            (arith, get_or-swap i j x l li lj, v.multiple i hi, v.multiple j hj, v.multiple x h);
      distinct = λ x y hx hy e. ground (
        arith,
        get_or-swap i j x l li lj,
        get_or-swap i j y l li lj,
        v.distinct j i hj hi,
        v.distinct i j hi hj,
        v.distinct j y hj hy,
        v.distinct i y hi hy,
        v.distinct x j hx hj,
        v.distinct x i hx hi,
        v.distinct x y hx hy,
      );
    }

module _ (env : Environment) (scale : ℕ) where
  shuffle-IsLayout :
      (max i : ℕ) (s : Shuffle)
      → i < max
      → IsLayout scale max s.result
      → IsLayout scale max (shuffle env i s).result
  unfolding shuffle
  shuffle-IsLayout max zero s h v = v
  shuffle-IsLayout max (suc i) s h v =
      let r = bit_xor (s.r * 2 % 2 ^ 64) (env.rand s.calls) in
      shuffle-IsLayout max i _ (omega arith)
        (swap-IsLayout scale max (suc i) (r % (suc i + 1)) s.result v h (omega arith))

  get_or-multiples :
      (i k x : ℕ) → x < k → get_or (multiples scale i k) x 0 ≡ (i + x) * scale % 2 ^ 64
  unfolding multiples
  get_or-multiples i zero x h = absurd (omega arith)
  get_or-multiples i (suc k) zero h = rw add-zero
  get_or-multiples i (suc k) (suc x) h =
      let shifted : i + 1 + x ≡ i + suc x = omega arith in
      rw (get_or-multiples (i + 1) k x (omega arith), shifted)

  module _ (max : ℕ) (pos : 0 < scale) (fits : max * scale ≤ 2 ^ 64) where
    multiples-exact : (x : ℕ) → x < max → get_or (multiples scale 0 max) x 0 ≡ x * scale
    multiples-exact x h =
        rw (get_or-multiples 0 max x h, zero-add)
          (omega (arith, mul-le-mul_right {m = suc x} {n = max} scale h))

    multiples-IsLayout : IsLayout scale max (multiples scale 0 max)
    multiples-IsLayout = record {
      size = length-multiples env scale 0 max;
      multiple = λ x h. rw (multiples-exact x h) (mul-mod_left x scale);
      distinct = λ x y hx hy e.
          mul_inj x y scale pos (sym (multiples-exact x hx) ∙ e ∙ multiples-exact y hy);
    }

    -- With memory, a scale that is not 0 and offsets that fit 64 bits, `permutation` returns an
    -- array of different multiples of `scale`.
    pub permutation-IsLayout :
        (r calls : ℕ)
        → 0 < max
        → (s : Shuffle) × (permutation env true max scale r calls ≡ some (some s))
          × IsLayout scale max s.result
    unfolding permutation
    permutation-IsLayout r calls h =
        let not_empty : (max == 0) ≡ false = ground arith in
        let (r', calls') = seed env r calls in
        let start : Shuffle = record { r = r'; calls = calls'; result = multiples scale 0 max } in
        (
          shuffle env (max - 1) start,
          rw not_empty,
          shuffle-IsLayout max (max - 1) start (omega arith) multiples-IsLayout,
        )
