-- ===== src/Memory/Thrash/Ring.antt =====
-- The chain that `thrash_initialize` (lmbench3/src/lib_mem.c) leaves in whole pages.
use native.Mathlib.Nat.{
  mul-le-mul_right, add-mul-div_right, add-mul-mod_self_right, div-eq_of_lt, mod-eq_of_lt, zero-add,
  mod-lt, div-add-mod', div-lt_iff_lt-mul, mod_self, zero-mod,
}
use mathlib.Core.Path.{subst}
use repo_support_tools.Base.{
  ℕ, zero, suc, ◌+◌, ◌-◌, ◌*◌, ◌/◌, ◌%◌, ◌<◌, ◌≤◌, ◌≡◌, ◌≢◌, true, false, List, refl, sym, ◌∙◌, ap,
  arith, ==_iff, ◌==◌, get_or, dec_lt,
}
use repo_support_tools.Memory.Chain.{Cells}
use repo_support_tools.Memory.Chain.Ring.{next, IsRing}
use repo_support_tools.Memory.Thrash.{spot, spread, page_rounds, thrash_pages}

module _ (pages words : List ℕ) (nwords npages : ℕ) where
  -- the word that is stored to in round `j` on page `i`
  abbrev pub from : (i j : ℕ) → ℕ
  from i j = spot pages words nwords npages i i j

  spread-keeps :
      (i n first j k q : ℕ) (cells : Cells)
      → ((j' : ℕ) → j ≤ j' → j' < j + k → from i j' ≢ q)
      → spread pages words nwords npages i n first j k cells q ≡ cells q
  unfolding spread
  spread-keeps i n first j zero q cells apart = refl
  spread-keeps i n first j (suc k) q cells apart =
      let other : (from i j == q) ≡ false =
        differ (from i j) q (apart j (omega arith) (omega arith)) in
      spread-keeps i n first (j + 1) k q _ (λ j' lo hi. apart j' (omega arith) (omega arith))
      ∙ rw other refl
    where
      differ : (a b : ℕ) → a ≢ b → (a == b) ≡ false
      differ a b h = ground arith

  spread-sets :
      (i n first j k x : ℕ) (cells : Cells)
      → j ≤ x
      → x < j + k
      → ((j' : ℕ) → x < j' → j' < j + k → from i j' ≢ from i x)
      → spread pages words nwords npages i n first j k cells (from i x)
        ≡ spot pages words nwords npages n first (x + 1)
  unfolding spread
  spread-sets i n first j zero x cells lo hi apart = absurd (omega arith)
  spread-sets i n first j (suc k) x cells lo hi apart = elim (dec_lt j x) [
    | yes less ↦
        spread-sets i n first (j + 1) k x _ (omega arith) (omega arith)
          (λ j' a b. apart j' a (omega arith))
    | no equal ↦
        let same : j ≡ x = omega arith in
        let here : (from i j == from i x) ≡ true = (==_iff _ _).1 (ap (from i) same) in
        spread-keeps i n first (j + 1) k (from i x) _
          (λ j' a b. apart j' (omega arith) (omega arith))
        ∙ rw here (ap (λ y. spot pages words nwords npages n first (y + 1)) same)
  ]

  -- no word is used twice
  module _
      (distinct : (i j i' j' : ℕ)
        → i < npages
        → j < nwords
        → i' < npages
        → j' < nwords
        → from i j ≡ from i' j'
        → (i ≡ i') × (j ≡ j')) where
    -- Pages behind `i` do not change what is stored on page `x`.
    page_rounds-keeps :
        (i k x j : ℕ) (cells : Cells)
        → x < i
        → i + k ≤ npages
        → j < nwords
        → page_rounds pages words nwords npages i k cells (from x j) ≡ cells (from x j)
    unfolding page_rounds
    page_rounds-keeps i zero x j cells lo hi h = refl
    page_rounds-keeps i (suc k) x j cells lo hi h =
        page_rounds-keeps (i + 1) k x j _ (omega arith) (omega arith) h
        ∙ spread-keeps i (i + 1) i 0 nwords (from x j) cells (λ j' a b e.
          let both = distinct i j' x j (omega arith) (omega arith) (omega arith) h e in
          absurd (omega (arith, both.0)))

    spread-whole :
        (i n first j : ℕ) (cells : Cells)
        → i < npages
        → j < nwords
        → spread pages words nwords npages i n first 0 nwords cells (from i j)
          ≡ spot pages words nwords npages n first (j + 1)
    spread-whole i n first j cells hi h =
        spread-sets i n first 0 nwords j cells (omega arith) (omega arith) (λ j' a b e.
          let both = distinct i j' i j hi (omega arith) hi h e in absurd (omega (arith, both.1)))

    page_rounds-sets :
        (i k x j : ℕ) (cells : Cells)
        → i ≤ x
        → x < i + k
        → i + k ≤ npages
        → j < nwords
        → page_rounds pages words nwords npages i k cells (from x j)
          ≡ spot pages words nwords npages (x + 1) x (j + 1)
    unfolding page_rounds
    page_rounds-sets i zero x j cells lo hi room h = absurd (omega arith)
    page_rounds-sets i (suc k) x j cells lo hi room h = elim (dec_lt i x) [
      | yes less ↦ page_rounds-sets (i + 1) k x j _ (omega arith) (omega arith) (omega arith) h
      | no equal ↦
          let same : i ≡ x = omega arith in
          rw same (
            page_rounds-keeps (x + 1) k x j _ (omega arith) (omega arith) h
            ∙ spread-whole x (x + 1) x j cells (omega arith) h)
    ]

    -- the order in which the chain visits the words: page after page, round after round
    abbrev pub stop_at : ℕ → ℕ
    stop_at t = from (t % npages) (t / npages)

    module _ (some_page : 0 < npages) (cells : Cells) where
      inner_step :
          (i j : ℕ)
          → i + 1 < npages
          → j < nwords
          → thrash_pages pages words nwords npages cells (from i j) ≡ from (i + 1) j
      unfolding thrash_pages
      inner_step i j hi h =
          let turn : i + (j + 1) ≡ i + 1 + j = omega arith in
          spread-keeps (npages - 1) 0 0 0 nwords (from i j) _ (λ j' a b e.
            let both = distinct (npages - 1) j' i j (omega arith) (omega arith) (omega arith) h e in
            absurd (omega (arith, both.0)))
          ∙ page_rounds-sets 0 (npages - 1) i j cells (omega arith) (omega arith) (omega arith) h
          ∙ ap (λ k. get_or pages (i + 1) 0 + get_or words (k % nwords) 0) turn

      last_step :
          (j : ℕ)
          → j < nwords
          → thrash_pages pages words nwords npages cells (from (npages - 1) j) ≡ from 0 (j + 1)
      unfolding thrash_pages
      last_step j h = spread-whole (npages - 1) 0 0 j _ (omega arith) h

      stop_at_place : (i j : ℕ) → i < npages → stop_at (j * npages + i) ≡ from i j
      stop_at_place i j h =
          let flipped : j * npages + i ≡ i + j * npages = omega arith in
          rw (
            flipped,
            add-mul-div_right i j some_page,
            add-mul-mod_self_right i j npages,
            div-eq_of_lt h,
            mod-eq_of_lt h,
            zero-add,
          )

      round_end : (j : ℕ) → j < nwords → j * npages + npages ≤ nwords * npages
      round_end j h = omega (arith, mul-le-mul_right {m = suc j} {n = nwords} npages (omega arith))

      -- Behind the last page the next round begins, and behind the last round the first.
      outer_step :
          (j : ℕ)
          → j < nwords
          → thrash_pages pages words nwords npages cells (stop_at (j * npages + (npages - 1)))
            ≡ stop_at (next (nwords * npages) (j * npages + (npages - 1)))
      outer_step j h = elim (dec_lt (j + 1) nwords) [
        | yes more ↦
            let behind : (j + 1) * npages ≡ j * npages + npages = omega arith in
            let successor : next (nwords * npages) (j * npages + (npages - 1))
                ≡ (j + 1) * npages + 0 =
              ground (arith, behind, round_end (j + 1) more) in
            rw
              (
                successor,
                stop_at_place (npages - 1) j (omega arith),
                stop_at_place 0 (j + 1) some_page,
              )
              (last_step j h)
        | no done ↦
            let same : nwords ≡ suc j = omega arith in
            let whole : nwords * npages ≡ j * npages + npages = rw same (omega arith) in
            let successor : next (nwords * npages) (j * npages + (npages - 1)) ≡ 0 * npages + 0 =
              ground arith in
            let all : 0 + (j + 1) ≡ nwords = omega arith in
            rw (successor, stop_at_place (npages - 1) j (omega arith), stop_at_place 0 0 some_page)
              (last_step j h
                ∙ ap (λ x. get_or pages 0 0 + get_or words x 0)
                    (ap (λ x. x % nwords) all ∙ mod_self nwords ∙ sym (zero-mod nwords)))
      ]

      step_at :
          (i j : ℕ)
          → i < npages
          → j < nwords
          → thrash_pages pages words nwords npages cells (stop_at (j * npages + i))
            ≡ stop_at (next (nwords * npages) (j * npages + i))
      step_at i j hi h = elim (dec_lt (i + 1) npages) [
        | yes inner ↦
            let successor : next (nwords * npages) (j * npages + i) ≡ j * npages + (i + 1) =
              ground (arith, round_end j h) in
            rw (successor, stop_at_place i j hi, stop_at_place (i + 1) j inner)
              (inner_step i j inner h)
        | no outer ↦ let last : i ≡ npages - 1 = omega arith in rw last (outer_step j h)
      ]

      pub thrash_pages_lem :
          IsRing stop_at (nwords * npages) (thrash_pages pages words nwords npages cells)
      thrash_pages_lem = record {
        step = λ t h.
            subst
              (λ u.
                thrash_pages pages words nwords npages cells (stop_at u)
                ≡ stop_at (next (nwords * npages) u))
              (div-add-mod' t npages)
              (step_at (t % npages) (t / npages) (mod-lt t some_page)
                ((div-lt_iff_lt-mul some_page).1 h));
      }
