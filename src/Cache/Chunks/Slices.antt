-- ===== src/Cache/Chunks/Slices.antt =====
-- Slices of lists, as `pagesort` of lmbench3/src/cache.c is called on them.
use mathlib.Core.List.{append_assoc}
use repo_support_tools.Base.{
  ℕ, suc, ◌≤◌, ◌≡◌, List, [], ◌∷◌, ◌++◌, length, take, drop, map, length-append, append_take-drop,
  refl, ap, ◌∙◌, arith,
}
use repo_support_tools.Cache.Chunks.{zip}

pub map-zip_second {ℓ κ} :
    {A : Type ℓ} {B : Type κ} (l : List A) (m : List B)
    → length m ≤ length l
    → map (λ y. y.1) (zip l m) ≡ m
map-zip_second [] [] h = refl
map-zip_second [] (y ∷ m) h = absurd (omega arith)
map-zip_second (x ∷ l) [] h = refl
map-zip_second (x ∷ l) (y ∷ m) h = ap (◌∷◌ y) (map-zip_second l m (omega arith))

pub length-zip {ℓ κ} :
    {A : Type ℓ} {B : Type κ} (l : List A) (m : List B)
    → length m ≡ length l
    → length (zip l m) ≡ length l
length-zip [] m h = refl
length-zip (x ∷ l) [] h = absurd (omega arith)
length-zip (x ∷ l) (y ∷ m) h = ap suc (length-zip l m (omega arith))

pub length-map {ℓ κ} :
    {A : Type ℓ} {B : Type κ} (g : A → B) (l : List A) → length (map g l) ≡ length l
length-map g [] = refl
length-map g (x ∷ l) = ap suc (length-map g l)

-- a slice between what is before and after it
pub slice_lem {ℓ} :
    {A : Type ℓ} (start n : ℕ) (l : List A)
    → take start l ++ take n (drop start l) ++ drop n (drop start l) ≡ l
slice_lem start n l =
    append_assoc (take start l) (take n (drop start l)) (drop n (drop start l))
    ∙ ap (◌++◌ (take start l)) (append_take-drop n (drop start l))
    ∙ append_take-drop start l

pub length-slice {ℓ} :
    {A : Type ℓ} (start n : ℕ) (l m : List A)
    → length m ≡ length (take n (drop start l))
    → length (take start l ++ m ++ drop n (drop start l)) ≡ length l
length-slice start n l m h =
    let a = take start l in
    let s = take n (drop start l) in
    let d = drop n (drop start l) in
    omega (
      arith,
      length-append (a ++ m) d,
      length-append a m,
      length-append (a ++ s) d,
      length-append a s,
      ap length (slice_lem start n l),
    )
