-- ===== src/Mhz/Common.antt =====
-- `mode` of lmbench3/src/mhz.c finds the most common value.
use mathlib.Core.Path.{subst}
use repo_support_tools.Base.{
  ℕ, suc, ◌+◌, ◌≤◌, ◌≡◌, Bool, true, false, List, [], ◌∷◌, some, refl, sym, ap, ◌∙◌, arith,
  Bool-cases, inl, inr, ltb, All, if◌then◌else◌,
}
use repo_support_tools.Base.Int.{ℤ, pos, negsuc, ltb_ℤ}
use repo_support_tools.Mhz.{Mode, differs, count_value, count_values, mode_of}

equal_of : (a b : ℤ) → differs a b ≡ false → a ≡ b
equal_of (pos a) (pos b) h = let e : a ≡ b = ground arith in ap pos e
equal_of (pos a) (negsuc b) h = absurd (ground arith)
equal_of (negsuc a) (pos b) h = absurd (ground arith)
equal_of (negsuc a) (negsuc b) h = let e : a ≡ b = ground arith in ap negsuc e

differs_self : (a : ℤ) → differs a a ≡ false
differs_self (pos a) = ground arith
differs_self (negsuc a) = ground arith

greater_of : (a b : ℤ) → differs a b ≡ true → ltb_ℤ b a ≡ false → ltb_ℤ a b ≡ true
greater_of a b h h' = elim (Bool-cases (ltb_ℤ a b)) [
  | inl less ↦ less
  | inr more ↦ absurd (let never : differs a b ≡ false = rw (more, h') refl in cc)
]

le_lt_trans : (a b c : ℤ) → ltb_ℤ b a ≡ false → ltb_ℤ b c ≡ true → ltb_ℤ a c ≡ true
le_lt_trans (pos a) (pos b) (pos c) h h' = ground arith
le_lt_trans (pos a) (pos b) (negsuc c) h h' = absurd (ground arith)
le_lt_trans (pos a) (negsuc b) c h h' = absurd (ground arith)
le_lt_trans (negsuc a) (pos b) (pos c) h h' = ground arith
le_lt_trans (negsuc a) (pos b) (negsuc c) h h' = absurd (ground arith)
le_lt_trans (negsuc a) (negsuc b) (pos c) h h' = ground arith
le_lt_trans (negsuc a) (negsuc b) (negsuc c) h h' = ground arith

differs_of_less : (a b : ℤ) → ltb_ℤ a b ≡ true → differs a b ≡ true
differs_of_less a b h = rw h refl

-- how often a value stands in a list
abbrev pub count : ℤ → List ℤ → ℕ
count v [] = 0
count v (w ∷ l) = if differs w v then count v l else suc (count v l)

abbrev pub IsAscending : List ℤ → Type 0
IsAscending [] = Unit
IsAscending (v ∷ l) = All (λ w. ltb_ℤ w v ≡ false) l × IsAscending l

-- the counts with one more `w`
abbrev counted : ℤ → (ℤ → ℕ) → ℤ → ℕ
counted w cnt v = if differs w v then cnt v else suc (cnt v)

counted_self : (w : ℤ) (cnt : ℤ → ℕ) → counted w cnt w ≡ suc (cnt w)
counted_self w cnt = rw (differs_self w) refl

-- `cnt` counts the values so far
record IsCounted (cnt : ℤ → ℕ) (m : Mode) : Type 0 where
  curr_count : m.n_curr ≡ cnt m.curr
  mode_count : m.n_mode ≡ cnt m.mode
  most : (v : ℤ) → cnt v ≤ m.n_mode
  later : (v : ℤ) → ltb_ℤ m.curr v ≡ true → cnt v ≡ 0

abbrev run_length : ℤ → Mode → ℕ
run_length w m = if differs m.curr w then 1 else suc m.n_curr

run_length_lem :
    (cnt : ℤ → ℕ) (w : ℤ) (m : Mode)
    → IsCounted cnt m
    → ltb_ℤ w m.curr ≡ false
    → run_length w m ≡ suc (cnt w)
run_length_lem cnt w m h up = elim (Bool-cases (differs m.curr w)) [
  | inl other ↦ rw other (ap suc (sym (h.later w (greater_of m.curr w other up))))
  | inr same ↦ rw same (ap suc (h.curr_count ∙ ap cnt (equal_of m.curr w same)))
]

counted_later :
    (cnt : ℤ → ℕ) (w : ℤ) (m : Mode)
    → IsCounted cnt m
    → ltb_ℤ w m.curr ≡ false
    → (v : ℤ) → ltb_ℤ w v ≡ true
    → counted w cnt v ≡ 0
counted_later cnt w m h up v less =
    ap (λ (b : Bool). if b then cnt v else suc (cnt v)) (differs_of_less w v less)
    ∙ h.later v (le_lt_trans m.curr w v up less)

counted_most :
    (cnt : ℤ → ℕ) (w : ℤ) (n : ℕ)
    → suc (cnt w) ≤ n
    → ((v : ℤ) → cnt v ≤ n)
    → (v : ℤ) → counted w cnt v ≤ n
counted_most cnt w n here most v = elim (Bool-cases (differs w v)) [
  | inl other ↦ rw other (most v)
  | inr same ↦ rw same (let e = ap cnt (equal_of w v same) in omega (arith, e))
]

counted_mode :
    (cnt : ℤ → ℕ) (w : ℤ) (m : Mode)
    → IsCounted cnt m
    → (n : ℕ) → n ≡ suc (cnt w)
    → n ≤ m.n_mode
    → m.n_mode ≡ counted w cnt m.mode
counted_mode cnt w m h n e le = elim (Bool-cases (differs w m.mode)) [
  | inl other ↦ rw other h.mode_count
  | inr same ↦
      absurd (let e' = ap cnt (equal_of w m.mode same) in omega (arith, e, e', h.mode_count, le))
]

count_value-IsCounted :
    (cnt : ℤ → ℕ) (w : ℤ) (m : Mode)
    → IsCounted cnt m
    → ltb_ℤ w m.curr ≡ false
    → IsCounted (counted w cnt) (count_value w m)
unfolding count_value
count_value-IsCounted cnt w m h up =
    let n = run_length w m in
    let n_eq = run_length_lem cnt w m h up in
    elim (Bool-cases (ltb m.n_mode n)) [
      | inl more ↦
          rw (more, count_value)
            (record {
              curr_count = n_eq ∙ sym (counted_self w cnt);
              mode_count = n_eq ∙ sym (counted_self w cnt);
              most = counted_most cnt w n (omega (arith, n_eq)) (λ v. ground (arith, h.most v));
              later = counted_later cnt w m h up;
            })
      | inr less ↦
          rw (less, count_value)
            (record {
              curr_count = n_eq ∙ sym (counted_self w cnt);
              mode_count = counted_mode cnt w m h n n_eq (ground arith);
              most = counted_most cnt w m.n_mode (ground (arith, n_eq)) h.most;
              later = counted_later cnt w m h up;
            })
    ]

-- the counts of the values so far and of a list
sum_counted :
    (cnt : ℤ → ℕ) (w v : ℤ) (l : List ℤ) → counted w cnt v + count v l ≡ cnt v + count v (w ∷ l)
sum_counted cnt w v l = elim (Bool-cases (differs w v)) [
  | inl other ↦ rw other refl
  | inr same ↦ rw same (omega arith)
]

count_value-curr : (w : ℤ) (m : Mode) → (count_value w m).curr ≡ w
unfolding count_value
count_value-curr w m = elim (Bool-cases (ltb m.n_mode (run_length w m))) [
  | inl more ↦ rw (more, count_value) refl
  | inr less ↦ rw (less, count_value) refl
]

count_values_most :
    (cnt : ℤ → ℕ) (l : List ℤ) (m : Mode)
    → IsCounted cnt m
    → IsAscending (m.curr ∷ l)
    → (let r = (count_values l m).mode in (v : ℤ) → cnt v + count v l ≤ cnt r + count r l)
unfolding count_values
count_values_most cnt [] m h up v = omega (arith, h.most v, h.mode_count)
count_values_most cnt (w ∷ l) m h up v =
    let next = count_value-IsCounted cnt w m h up.0.0 in
    let r = (count_values l (count_value w m)).mode in
    let up' = subst (λ c. IsAscending (c ∷ l)) (sym (count_value-curr w m)) up.1 in
    let rest = count_values_most (counted w cnt) l (count_value w m) next up' v in
    omega (arith, rest, sum_counted cnt w v l, sum_counted cnt w r l)

-- On ascending rounded values `mode` gives one that no other value is more common than.
pub mode_of_most :
    (v : ℤ) (l : List ℤ)
    → IsAscending (v ∷ l)
    → (m : ℤ) × (mode_of (v ∷ l) ≡ some m) × ((w : ℤ) → count w (v ∷ l) ≤ count m (v ∷ l))
unfolding mode_of
mode_of_most v l up =
    let start : Mode = record { mode = v; n_mode = 1; curr = v; n_curr = 1 } in
    let none_yet : ℤ → ℕ = λ w. 0 in
    let r = (count_values l start).mode in
    let h : IsCounted (counted v none_yet) start = record {
      curr_count = sym (counted_self v none_yet);
      mode_count = sym (counted_self v none_yet);
      most = counted_most none_yet v 1 (omega arith) (λ w. omega arith);
      later = λ w less. ap (λ (b : Bool). if b then 0 else 1) (differs_of_less v w less);
    } in
    (
      r,
      refl,
      λ w. omega (
        arith,
        count_values_most (counted v none_yet) l start h up w,
        sum_counted none_yet v w l,
        sum_counted none_yet v r l,
      ),
    )
