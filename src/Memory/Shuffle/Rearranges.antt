-- ===== src/Memory/Shuffle/Rearranges.antt =====
-- Whatever `rand` gives, `permutation` rearranges the multiples of `scale`.
use Prim.Native.Nat.{bit_xor}
use mathlib.Core.List.{Perm}
use mathlib.Core.List.Perm
use repo_support_tools.Base.{
  ℕ, zero, suc, ◌+◌, ◌-◌, ◌*◌, ◌%◌, ◌^◌, ◌<◌, ◌≡◌, refl, ap, ◌∙◌, List, [], ◌∷◌, some, true, false,
  ◌==◌, get_or, set, length, length-set, get_or-set_self, get_or-set_ne, arith, ℕ_discrete,
}
use repo_support_tools.Memory.Shuffle.{
  Environment, Shuffle, multiples, swap, seed, shuffle, permutation,
}

-- Writing at an index exchanges the old value for the new one.
set-perm : (l : List ℕ) (i v : ℕ) → i < length l → Perm (get_or l i 0 ∷ set l i v) (v ∷ l)
set-perm [] i v h = absurd (omega arith)
set-perm (x ∷ l) zero v h = Perm.swap v x l
set-perm (x ∷ l) (suc i) v h =
    Perm.trans (Perm.swap x (get_or l i 0) (set l i v))
      (Perm.trans (Perm.cons x (set-perm l i v (omega arith))) (Perm.swap v x l))

-- Swapping two elements rearranges the array.
pub swap-perm : (i j : ℕ) (l : List ℕ) → i < length l → j < length l → Perm (swap i j l) l
unfolding swap
swap-perm i j l hi hj = Perm.cons_inv (
    Perm.trans
      (rw same at (
        set-perm (set l j (get_or l i 0)) i (get_or l j 0)
          (omega (arith, length-set l j (get_or l i 0)))))
      (set-perm l j (get_or l i 0) hj))
  where
    same : get_or (set l j (get_or l i 0)) i 0 ≡ get_or l i 0
    same = elim (ℕ_discrete j i) [
      | yes e ↦ rw e (get_or-set_self l i (get_or l i 0) 0 hi)
      | no ne ↦ get_or-set_ne l j i (get_or l i 0) 0 ne
    ]

pub length-swap : (i j : ℕ) (l : List ℕ) → length (swap i j l) ≡ length l
unfolding swap
length-swap i j l =
    length-set (set l j (get_or l i 0)) i (get_or l j 0) ∙ length-set l j (get_or l i 0)

module _ (env : Environment) where
  shuffle-perm :
      (i : ℕ) (s : Shuffle) → i < length s.result → Perm (shuffle env i s).result s.result
  unfolding shuffle
  shuffle-perm zero s h = Perm.refl s.result
  shuffle-perm (suc i) s h =
      let j = bit_xor (s.r * 2 % 2 ^ 64) (env.rand s.calls) % (suc i + 1) in
      let in_range : j < length s.result = omega arith in
      Perm.trans (shuffle-perm i _ (omega (arith, length-swap (suc i) j s.result)))
        (swap-perm (suc i) j s.result h in_range)

  pub length-multiples : (scale i k : ℕ) → length (multiples scale i k) ≡ k
  unfolding multiples
  length-multiples scale i zero = refl
  length-multiples scale i (suc k) = ap suc (length-multiples scale (i + 1) k)

  -- With memory and at least one element `permutation` returns an array, whatever the seed and the
  -- values of `rand` are, and it is a rearrangement of the multiples 0, scale, 2 * scale, ...
  pub permutation-perm :
      (max scale r calls : ℕ)
      → 0 < max
      → (s : Shuffle) × (permutation env true max scale r calls ≡ some (some s))
        × Perm s.result (multiples scale 0 max)
  unfolding permutation
  permutation-perm max scale r calls h =
      let not_empty : (max == 0) ≡ false = ground arith in
      let (r', calls') = seed env r calls in
      let start : Shuffle = record { r = r'; calls = calls'; result = multiples scale 0 max } in
      (
        shuffle env (max - 1) start,
        rw not_empty,
        shuffle-perm (max - 1) start (omega (arith, length-multiples scale 0 max)),
      )
