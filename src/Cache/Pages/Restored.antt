-- ===== src/Cache/Pages/Restored.antt =====
-- `remove_chunk` of lmbench3/src/cache.c puts the pages back.
use repo_support_tools.Base.{
  ℕ, zero, suc, ◌+◌, ◌-◌, ◌≤◌, ◌<◌, ◌≡◌, true, false, List, [], ◌∷◌, length, get_or, refl, ap, ◌∙◌,
  sym, arith, ◌==◌, if◌then◌else◌, Bool-cases, inl, inr,
}
use repo_support_tools.Memory.Shuffle.{swap}
use repo_support_tools.Memory.Shuffle.Distinct.{get_or-swap}
use repo_support_tools.Memory.Shuffle.Rearranges.{length-swap}
use repo_support_tools.Cache.Pages.{exchange_ends}

ext_get_or :
    (l m : List ℕ)
    → length l ≡ length m
    → ((x : ℕ) → x < length l → get_or l x 0 ≡ get_or m x 0)
    → l ≡ m
ext_get_or [] [] e h = refl
ext_get_or [] (y ∷ m) e h = absurd (omega arith)
ext_get_or (x ∷ l) [] e h = absurd (omega arith)
ext_get_or (x ∷ l) (y ∷ m) e h =
    let head : x ≡ y = h 0 (omega arith) in
    rw head (ap (◌∷◌ y) (ext_get_or l m (omega arith) (λ i below. h (suc i) (omega arith))))

-- where the element at `x` comes from
abbrev source : (a b x : ℕ) → ℕ
source a b x = if a == x then b else if b == x then a else x

source_comm :
    (a b c d x : ℕ) → a + b ≡ c + d → source c d (source a b x) ≡ source a b (source c d x)
source_comm a b c d x h = ground arith

source_twice : (a b x : ℕ) → source a b (source a b x) ≡ x
source_twice a b x = ground arith

source_below : (a b x n : ℕ) → a < n → b < n → x < n → source a b x < n
source_below a b x n ha hb hx = ground arith

get_or-swap-source :
    (a b x : ℕ) (l : List ℕ)
    → a < length l
    → b < length l
    → get_or (swap a b l) x 0 ≡ get_or l (source a b x) 0
get_or-swap-source a b x l ha hb = elim (Bool-cases (a == x)) [
  | inl e ↦ let e' : (x == a) ≡ true = ground arith in rw (e, get_or-swap a b x l ha hb, e') refl
  | inr e ↦ elim (Bool-cases (b == x)) [
    | inl e2 ↦
        let e' : (x == a) ≡ false = ground arith in
        let e2' : (x == b) ≡ true = ground arith in
        rw (e, e2, get_or-swap a b x l ha hb, e', e2') refl
    | inr e2 ↦
        let e' : (x == a) ≡ false = ground arith in
        let e2' : (x == b) ≡ false = ground arith in
        rw (e, e2, get_or-swap a b x l ha hb, e', e2') refl
  ]
]

-- two exchanges in turn
get_or-swap-swap :
    (a b c d x : ℕ) (l : List ℕ)
    → (a < length l) × (b < length l)
    → (c < length l) × (d < length l)
    → get_or (swap a b (swap c d l)) x 0 ≡ get_or l (source c d (source a b x)) 0
get_or-swap-swap a b c d x l h h' =
    let size = length-swap c d l in
    get_or-swap-source a b x (swap c d l) (omega (arith, h.0)) (omega (arith, h.1))
    ∙ get_or-swap-source c d (source a b x) l h'.0 h'.1

swap_twice : (a b : ℕ) (l : List ℕ) → (a < length l) × (b < length l) → swap a b (swap a b l) ≡ l
swap_twice a b l h =
    ext_get_or (swap a b (swap a b l)) l (length-swap a b (swap a b l) ∙ length-swap a b l)
      (λ x below. get_or-swap-swap a b a b x l h h ∙ ap (λ n. get_or l n 0) (source_twice a b x))

swap_comm :
    (a b c d : ℕ) (l : List ℕ)
    → (a < length l) × (b < length l)
    → (c < length l) × (d < length l)
    → a + b ≡ c + d
    → swap a b (swap c d l) ≡ swap c d (swap a b l)
swap_comm a b c d l h h' e =
    ext_get_or (swap a b (swap c d l)) (swap c d (swap a b l))
      (length-swap a b (swap c d l)
        ∙ length-swap c d l
        ∙ sym (length-swap c d (swap a b l) ∙ length-swap a b l))
      (λ x below.
        get_or-swap-swap a b c d x l h h'
        ∙ ap (λ n. get_or l n 0) (source_comm a b c d x e)
        ∙ sym (get_or-swap-swap c d a b x l h' h))

pub length-exchange_ends :
    (i npages k j : ℕ) (l : List ℕ) → length (exchange_ends i npages k j l) ≡ length l
unfolding exchange_ends
length-exchange_ends i npages zero j l = refl
length-exchange_ends i npages (suc k) j l =
    length-exchange_ends i npages k (suc j) _ ∙ length-swap (i + j) (npages - 1 - j) l

exchange_ends-swap :
    (i npages k j a b : ℕ) (l : List ℕ)
    → i + j + k < npages
    → npages ≤ length l
    → (a < length l) × (b < length l)
    → a + b ≡ i + (npages - 1)
    → exchange_ends i npages k j (swap a b l) ≡ swap a b (exchange_ends i npages k j l)
unfolding exchange_ends
exchange_ends-swap i npages zero j a b l inside small h e = refl
exchange_ends-swap i npages (suc k) j a b l inside small h e =
    let size = length-swap (i + j) (npages - 1 - j) l in
    ap (exchange_ends i npages k (suc j))
      (swap_comm (i + j) (npages - 1 - j) a b l (omega arith, omega arith) h (omega arith))
    ∙ exchange_ends-swap i npages k (suc j) a b (swap (i + j) (npages - 1 - j) l) (omega arith)
        (omega arith) (omega (arith, h.0), omega (arith, h.1)) e

-- The loop of `remove_chunk` that puts the pages back is the inverse of the one that removes a chunk,
-- also where the chunk reaches into the end of the list, if the chunk does not end the list.
pub exchange_ends_twice :
    (i npages k j : ℕ) (l : List ℕ)
    → i + j + k < npages
    → npages ≤ length l
    → exchange_ends i npages k j (exchange_ends i npages k j l) ≡ l
unfolding exchange_ends
exchange_ends_twice i npages zero j l inside small = refl
exchange_ends_twice i npages (suc k) j l inside small =
    let a = i + j in
    let b = npages - 1 - j in
    let size = length-swap a b l in
    let h : (a < length l) × (b < length l) = (omega arith, omega arith) in
    let size' = length-exchange_ends i npages k (suc j) (swap a b l) in
    ap (exchange_ends i npages k (suc j)) (
      sym (
        exchange_ends-swap i npages k (suc j) a b (swap a b l) (omega arith) (omega arith)
          (omega arith, omega arith) (omega arith)))
    ∙ ap (λ m. exchange_ends i npages k (suc j) (exchange_ends i npages k (suc j) m))
        (swap_twice a b l h)
    ∙ exchange_ends_twice i npages k (suc j) l (omega arith) small
