-- ===== src/Statistics/Sort.antt =====
-- `qsort` with the comparison functions of lmbench3/src/lib_stats.c. The C library's `qsort` leaves
-- the array sorted by the comparison and permuted; equal numbers cannot be told apart, so insertion
-- by `uint64_compare` has the same result.
use repo_support_tools.Base.{
  ℕ, ◌+◌, ◌≤◌, ◌≡◌, refl, List, [], ◌∷◌, true, false, ltb, if◌then◌else◌, All, arith, Bool-cases,
  inl, inr, length,
}
use repo_support_tools.Base.Int.{ℤ, pos, negsuc, ltb_ℤ}
use mathlib.Core.List.{Perm}
use mathlib.Core.List.Perm

-- `uint64_compare` and `int_compare`
unfoldable pub uint64_compare : ℕ → ℕ → ℤ
uint64_compare a b = if ltb a b then negsuc 0 else if ltb b a then pos 1 else pos 0

unfoldable pub int_compare : ℤ → ℤ → ℤ
int_compare a b = if ltb_ℤ a b then negsuc 0 else if ltb_ℤ b a then pos 1 else pos 0

module _ {A : Type 0} (compare : A → A → ℤ) where
  -- before the first element that is greater
  unfoldable pub place : A → List A → List A
  place x [] = x ∷ []
  place x (y ∷ ys) = if ltb_ℤ (pos 0) (compare y x) then x ∷ y ∷ ys else y ∷ place x ys

  unfoldable pub qsort : List A → List A
  qsort [] = []
  qsort (x ∷ xs) = place x (qsort xs)

  place-perm : (x : A) (l : List A) → Perm (place x l) (x ∷ l)
  unfolding place
  place-perm x [] = Perm.rfl
  place-perm x (y ∷ ys) = elim (Bool-cases (ltb_ℤ (pos 0) (compare y x))) [
    | inl e ↦ rw e Perm.rfl
    | inr e ↦ rw e (Perm.trans (Perm.cons y (place-perm x ys)) (Perm.swap x y ys))
  ]

  pub qsort-perm : (l : List A) → Perm (qsort l) l
  unfolding qsort
  qsort-perm [] = Perm.rfl
  qsort-perm (x ∷ xs) = Perm.trans (place-perm x (qsort xs)) (Perm.cons x (qsort-perm xs))

  length-place : (x : A) (l : List A) → length (place x l) ≡ length l + 1
  unfolding place
  length-place x [] = omega arith
  length-place x (y ∷ ys) = ground (arith, length-place x ys)

  pub length-qsort : (l : List A) → length (qsort l) ≡ length l
  unfolding qsort
  length-qsort [] = refl
  length-qsort (x ∷ xs) = omega (arith, length-place x (qsort xs), length-qsort xs)

-- On `uint64`: sorted arrays in terms of `≤`.
abbrev pub IsAscending : List ℕ → Type 0
IsAscending [] = Unit
IsAscending (x ∷ xs) = All (λ y. x ≤ y) xs × IsAscending xs

All-place : (P : ℕ → Type 0) (x : ℕ) (l : List ℕ) → P x → All P l → All P (place uint64_compare x l)
unfolding place
All-place P x [] p h = (p, tt)
All-place P x (y ∷ ys) p h = elim (Bool-cases (ltb_ℤ (pos 0) (uint64_compare y x))) [
  | inl e ↦ rw e (p, h)
  | inr e ↦ rw e (h.0, All-place P x ys p h.1)
]

pub All-qsort : (P : ℕ → Type 0) (l : List ℕ) → All P l → All P (qsort uint64_compare l)
unfolding qsort
All-qsort P [] h = tt
All-qsort P (x ∷ xs) h = All-place P x (qsort uint64_compare xs) h.0 (All-qsort P xs h.1)

greater : (x y : ℕ) → ltb_ℤ (pos 0) (uint64_compare y x) ≡ true → x ≤ y
unfolding uint64_compare
greater x y h = ground arith

not_greater : (x y : ℕ) → ltb_ℤ (pos 0) (uint64_compare y x) ≡ false → y ≤ x
unfolding uint64_compare
not_greater x y h = ground arith

All-le_trans : (x y : ℕ) (l : List ℕ) → x ≤ y → All (λ z. y ≤ z) l → All (λ z. x ≤ z) l
All-le_trans x y [] h k = tt
All-le_trans x y (z ∷ l) h k = (omega arith, All-le_trans x y l h k.1)

place-IsAscending : (x : ℕ) (l : List ℕ) → IsAscending l → IsAscending (place uint64_compare x l)
unfolding place
place-IsAscending x [] h = (tt, tt)
place-IsAscending x (y ∷ ys) h = elim (Bool-cases (ltb_ℤ (pos 0) (uint64_compare y x))) [
  | inl e ↦ rw e ((greater x y e, All-le_trans x y ys (greater x y e) h.0), h)
  | inr e ↦ rw e (All-place (λ z. y ≤ z) x ys (not_greater x y e) h.0, place-IsAscending x ys h.1)
]

pub qsort-IsAscending : (l : List ℕ) → IsAscending (qsort uint64_compare l)
unfolding qsort
qsort-IsAscending [] = tt
qsort-IsAscending (x ∷ xs) = place-IsAscending x (qsort uint64_compare xs) (qsort-IsAscending xs)
