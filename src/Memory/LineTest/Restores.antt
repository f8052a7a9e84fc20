-- ===== src/Memory/LineTest/Restores.antt =====
-- What `line_test` of lmbench3/src/lib_mem.c leaves in memory.
use repo_support_tools.Base.{
  ℕ, zero, suc, ◌+◌, ◌-◌, ◌/◌, ◌<◌, ◌≤◌, ◌≡◌, true, false, List, ◌⊎◌, inl, inr, refl, sym, ◌∙◌, ap,
  arith, Bool-cases, ==_iff, ◌==◌, ltb, dec_lt,
}
use mathlib.Core.Path.{subst}
use repo_support_tools.Doubles.{Doubles}
use repo_support_tools.Timing.Results.{Results, Value}
use repo_support_tools.Memory.Chain.{Cells, store}
use repo_support_tools.Memory.LineTest.{place, skip_loop, shorten, repair_loop, repair, line_test}

-- `visited` is the number of lines that are visited on each of the `npages` pages.
module _ (pages lines : List ℕ) (visited npages : ℕ) (cells : Cells) where
  abbrev turn : ℕ → ℕ
  turn i = place pages lines i (visited - 1)

  -- The memory is `cells` but for the last visited lines of the pages from `i` on.
  abbrev IsCut : ℕ → Cells → Type 0
  IsCut i cells' =
      (q : ℕ) → (cells' q ≡ cells q) ⊎ ((j : ℕ) × (i ≤ j) × (j < npages) × (turn j ≡ q))

  store-IsCut :
      (i x : ℕ) (cells' : Cells) → i < npages → IsCut 0 cells' → IsCut 0 (store (turn i) x cells')
  store-IsCut i x cells' h cut q = elim (Bool-cases (turn i == q)) [
    | inl e ↦ inr (i, omega arith, h, (==_iff _ _).0 e)
    | inr e ↦ rw e (cut q)
  ]

  skip_loop-IsCut :
      (i k : ℕ) (cells' : Cells)
      → i + k ≤ npages
      → IsCut 0 cells'
      → IsCut 0 (skip_loop pages lines visited i k cells')
  unfolding skip_loop
  skip_loop-IsCut i zero cells' h cut = cut
  skip_loop-IsCut i (suc k) cells' h cut =
      skip_loop-IsCut (i + 1) k _ (omega arith) (store-IsCut i _ cells' (omega arith) cut)

  module _ (whole : (i : ℕ) → i < npages → cells (turn i) ≡ place pages lines i visited) where
    store-repairs :
        (i : ℕ) (cells' : Cells)
        → i < npages
        → IsCut i cells'
        → IsCut (i + 1) (store (turn i) (place pages lines i visited) cells')
    store-repairs i cells' h cut q = elim (Bool-cases (turn i == q)) [
      | inl e ↦ rw e (inl (sym (whole i h) ∙ ap cells ((==_iff _ _).0 e)))
      | inr e ↦ rw e (elim (cut q) [
        | inl same ↦ inl same
        | inr later ↦ inr (later.0, after later.0 e later.1 later.3, later.2, later.3)
      ])
    ]
      where
        after : (j : ℕ) → (turn i == q) ≡ false → i ≤ j → turn j ≡ q → i + 1 ≤ j
        after j e lo at = elim (dec_lt i j) [
          | yes less ↦ omega arith
          | no equal ↦
              let same : i ≡ j = omega arith in
              let found = (==_iff (turn i) q).1 (ap turn same ∙ at) in
              absurd (let never : false ≡ true = sym e ∙ found in cc)
        ]

    repair_loop-IsCut :
        (i k n : ℕ) (cells' : Cells)
        → i + k ≡ n
        → n ≤ npages
        → IsCut i cells'
        → IsCut n (repair_loop pages lines visited i k cells')
    unfolding repair_loop
    repair_loop-IsCut i zero n cells' e h cut =
        let same : i ≡ n = omega arith in subst (λ m. IsCut m cells') same cut
    repair_loop-IsCut i (suc k) n cells' e h cut =
        repair_loop-IsCut (i + 1) k n _ (omega arith) h (store-repairs i cells' (omega arith) cut)

    repair-shorten :
        0 < npages
        → (q : ℕ)
        → repair pages lines visited npages (shorten pages lines visited npages cells) q ≡ cells q
    unfolding shorten repair
    repair-shorten some_page q =
        let cut : IsCut 0 (shorten pages lines visited npages cells) =
          store-IsCut (npages - 1) _ _ (omega arith)
            (skip_loop-IsCut 0 (npages - 1) cells (omega arith) (λ p. inl refl)) in
        let most =
          repair_loop-IsCut 0 (npages - 1) (npages - 1) _ (omega arith) (omega arith) cut in
        elim (store-repairs (npages - 1) _ (omega arith) most q) [
          | inl same ↦ same
          | inr left ↦ absurd (omega (arith, left.1, left.2))
        ]

-- `line_test` leaves the memory as it was, if on each of the pages (at least one) the last line that
-- it visits led to the line behind it before, or if it visits all lines.
pub line_test-restores :
    (f : Doubles) (runs : Cells → List Value) (room : Results) (pages lines : List ℕ)
    (pagesize npages nlines line : ℕ) (cells : Cells)
    → 0 < npages
    → ((i : ℕ)
        → i < npages
        → cells (place pages lines i (pagesize / line - 1)) ≡ place pages lines i (pagesize / line))
    → (q : ℕ) → (line_test f runs room pages lines pagesize npages nlines line cells).1 q ≡ cells q
unfolding line_test
line_test-restores f runs room pages lines pagesize npages nlines line cells some_page whole q =
    elim (Bool-cases (ltb (pagesize / line) nlines)) [
      | inl e ↦ rw e (repair-shorten pages lines (pagesize / line) npages cells whole some_page q)
      | inr e ↦ rw e refl
    ]
