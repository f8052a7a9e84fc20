-- ===== src/LatMemRd/Grows.antt =====
-- The ranges and the counts of lat_mem_rd.c of lmbench3/src.
use repo_support_tools.Base.{
  ℕ, zero, suc, ◌+◌, ◌*◌, ◌/◌, ◌%◌, ◌^◌, ◌≤◌, ◌<◌, ◌≡◌, false, Bool-cases, inl, inr, some, List, [],
  ◌∷◌, refl, sym, ap, ◌∙◌, arith, ltb, leb,
}
use native.Mathlib.Nat.{pow-succ', pow-le-pow_right, lt-mul-div-succ}
use mathlib.Core.Path.{subst}
use repo_support_tools.Memory.Chain.{Cells, deref}
use repo_support_tools.LatMemRd.{
  power_above, step, ranges, rounds, load_count, load_rounds, benchmark_loads, lowest,
}

-- the power of 2 that the loop finds is above `k`
power_above_lem :
    (k fuel i : ℕ)
    → 64 ≤ i + fuel
    → k < 2 ^ 60
    → 2 ^ i ≤ 8 * k
    → (k < power_above k fuel (2 ^ i)) × (power_above k fuel (2 ^ i) ≤ 8 * k)
unfolding power_above
power_above_lem k zero i enough small near =
    let long : 64 ≤ i = omega arith in
    let big : 2 ^ 64 ≤ 2 ^ i = pow-le-pow_right (omega arith) long in absurd (omega arith)
power_above_lem k (suc fuel) i enough small near = elim (Bool-cases (leb (2 ^ i) k)) [
  | inr e ↦ rw (e) (ground arith, near)
  | inl e ↦
      let below : 2 ^ i ≤ k = ground arith in
      let double : 2 ^ suc i ≡ 2 * 2 ^ i = pow-succ' 2 i in
      let exact : 2 ^ i * 2 % 2 ^ 64 ≡ 2 ^ suc i = omega arith in
      rw (e, exact) (power_above_lem k fuel (suc i) (omega arith) small (omega arith))
]

-- Given a range of at least 512 bytes, the next one is larger by at least a 16th of it, and at most
-- twice it.
step-grows :
    (k : ℕ) → 512 ≤ k → k < 2 ^ 60 → (k + k / 16 ≤ step k) × (k < step k) × (step k ≤ 2 * k)
unfolding step
step-grows k h small = elim (Bool-cases (ltb k 1024)) [
  | inl e ↦ rw (e) (omega arith, omega arith, omega arith)
  | inr big ↦ elim (Bool-cases (ltb k 4096)) [
    | inl e ↦ rw (big, e) (ground arith, ground arith, ground arith)
    | inr e ↦
        let more : 4096 ≤ k = ground arith in
        let p = power_above_lem k 64 15 (omega arith) small (omega arith) in
        let s = power_above k 64 32768 in
        let above : k < s = p.0 in
        let within : s ≤ 8 * k = p.1 in
        let exact : (k + s / 16) % 2 ^ 64 ≡ k + s / 16 = omega arith in
        rw (big, e, exact) (omega arith, omega arith, omega arith)
  ]
]

-- ranges in order, each larger than the one before by a 16th at least, from `low` on and not above `len`
abbrev pub Ascends : (low len : ℕ) → List ℕ → Type 0
Ascends low len [] = Unit
Ascends low len (x ∷ xs) = (low ≤ x) × (x ≤ len) × Ascends (x + x / 16) len xs

Ascends-mono : (a b len : ℕ) (xs : List ℕ) → a ≤ b → Ascends b len xs → Ascends a len xs
Ascends-mono a b len [] h p = tt
Ascends-mono a b len (x ∷ xs) h p = (omega (arith, p.0), p.1, p.2)

ranges-Ascends :
    (len fuel range : ℕ)
    → 512 ≤ range
    → len < 2 ^ 60
    → len < range + fuel
    → (xs : List ℕ) × (ranges len (suc fuel) range ≡ some xs) × Ascends range len xs
unfolding ranges
ranges-Ascends len zero range h fits enough =
    let over : leb range len ≡ false = ground arith in rw (over) ([], refl, tt)
ranges-Ascends len (suc fuel) range h fits enough = elim (Bool-cases (leb range len)) [
  | inr e ↦ rw (e) ([], refl, tt)
  | inl e ↦
      let le : range ≤ len = ground arith in
      let g = step-grows range h (omega arith) in
      let rest =
        ranges-Ascends len fuel (step range) (omega (arith, g.1)) fits (omega (arith, g.1)) in
      rw (e, rest.1)
        (
          range ∷ rest.0,
          refl,
          (omega arith, le, Ascends-mono (range + range / 16) (step range) len rest.0 g.0 rest.2),
        )
]

-- Given a length below 2 ^ 60 and fuel for it, lat_mem_rd measures a list of ranges that ends: they
-- are from 512 bytes on, none is above the length, and each is larger than the one before by a
-- 16th at least.
pub ranges-ends :
    (len : ℕ)
    → len < 2 ^ 60
    → (xs : List ℕ) × (ranges len (suc len) lowest ≡ some xs) × Ascends lowest len xs
ranges-ends len fits = ranges-Ascends len len lowest (omega arith) fits (omega arith)

deref_same : (m n : ℕ) (cells : Cells) (p : ℕ) → m ≡ n → deref cells m p ≡ deref cells n p
deref_same m n cells p e = ap (λ k. deref cells k p) e

-- loads that follow others
deref-add :
    (m n : ℕ) (cells : Cells) (p : ℕ) → deref cells (m + n) p ≡ deref cells n (deref cells m p)
unfolding deref
deref-add zero n cells p = deref_same (0 + n) n cells p (omega arith)
deref-add (suc m) n cells p =
    deref_same (suc m + n) (suc (m + n)) cells p (omega arith) ∙ deref-add m n cells (cells p)

load_rounds-deref :
    (count : ℕ) (cells : Cells) (p : ℕ) → load_rounds count cells p ≡ deref cells (count * 100) p
unfolding load_rounds deref
load_rounds-deref zero cells p = refl
load_rounds-deref (suc count) cells p =
    load_rounds-deref count cells (deref cells 100 p)
    ∙ sym (deref-add 100 (count * 100) cells p)
    ∙ deref_same (100 + count * 100) (suc count * 100) cells p (omega arith)

one_more : (n k : ℕ) → n * 100 + k * (100 * n) ≡ suc k * (100 * n)
one_more n k = omega arith

regroup : (a line : ℕ) → line * 100 * (a + 1) ≡ 100 * (a + 1) * line
regroup a line = omega arith

load_count-covers : (len line : ℕ) → 0 < line → len < load_count len line * line
unfolding rounds
load_count-covers len line pos =
    subst (λ n. len < n) (regroup (len / (line * 100)) line) (lt-mul-div-succ len (omega arith))

-- Given a stride that is not 0, the loop of lat_mem_rd follows as many pointers as its result is
-- divided by, `load_count` in each iteration, and these are enough strides to pass the range.
pub benchmark_loads-deref :
    (iterations len line : ℕ) (cells : Cells) (p : ℕ)
    → 0 < line
    → (benchmark_loads iterations len line cells p
        ≡ deref cells (iterations * load_count len line) p)
      × (len < load_count len line * line)
unfolding benchmark_loads deref
benchmark_loads-deref zero len line cells p pos = (
  sym (deref_same (0 * load_count len line) 0 cells p (omega arith)),
  load_count-covers len line pos,
)
benchmark_loads-deref (suc iterations) len line cells p pos =
    let rest =
      benchmark_loads-deref iterations len line cells (load_rounds (rounds len line) cells p) pos in
    let n = rounds len line in
    (
      rest.0
          ∙ ap (deref cells (iterations * load_count len line)) (load_rounds-deref n cells p)
          ∙ sym (deref-add (n * 100) (iterations * load_count len line) cells p)
          ∙ deref_same (n * 100 + iterations * load_count len line)
              (suc iterations * load_count len line) cells p (one_more n iterations),
      rest.1,
    )
