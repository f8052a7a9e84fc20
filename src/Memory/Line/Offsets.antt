-- ===== src/Memory/Line/Offsets.antt =====
-- Pages and lines of the chains of lmbench3/src/lib_mem.c: their places in memory are told apart.
use native.Mathlib.Nat.{
  mul-le-mul_right, mod-eq_of_lt, zero-add, mod-lt, add-mod, div-add-mod', div-lt_iff_lt-mul,
}
use mathlib.Core.Path.{ap₂}
use repo_support_tools.Base.{
  ℕ, suc, ◌+◌, ◌*◌, ◌/◌, ◌%◌, ◌^◌, ◌≤◌, ◌<◌, ◌≡◌, sym, ap, ◌∙◌, List, some, true, arith, mul_inj,
  get_or,
}
use repo_support_tools.Memory.Words.{words_initialize}
use repo_support_tools.Memory.Words.Order.{words_initialize-involution}
use repo_support_tools.Memory.Shuffle.Distinct.{IsLayout}
use repo_support_tools.Memory.Line.Ring.{node}

-- The offsets of all `n` lines of a page, each once.
pub record IsEachLine (n line : ℕ) (lines : List ℕ) : Type 0 where
  pub is_offset : (j : ℕ) → j < n → (i : ℕ) × (i < n) × (get_or lines j 0 ≡ i * line)
  pub is_found : (i : ℕ) → i < n → (j : ℕ) × (j < n) × (get_or lines j 0 ≡ i * line)
  pub is_once : (i j : ℕ) → i < n → j < n → get_or lines i 0 ≡ get_or lines j 0 → i ≡ j

-- Different places have different addresses.
abbrev pub IsSpread : (address : ℕ → ℕ) (n : ℕ) → Type 0
IsSpread address n = (s t : ℕ) → s < n → t < n → address s ≡ address t → s ≡ t

low_offset : (pagesize p l : ℕ) → p % pagesize ≡ 0 → l < pagesize → (p + l) % pagesize ≡ l
low_offset pagesize p l hp hl =
    rw (add-mod p l pagesize, hp, zero-add, mod-eq_of_lt hl, mod-eq_of_lt hl)

-- Offsets in pages are told apart.
module _ (pagesize p p' l l' : ℕ) (hp : p % pagesize ≡ 0) (hp' : p' % pagesize ≡ 0)
    (hl : l < pagesize) (hl' : l' < pagesize) where
  pub offset_inj : p + l ≡ p' + l' → (p ≡ p') × (l ≡ l')
  offset_inj e =
      let same : l ≡ l' =
        sym (low_offset pagesize p l hp hl)
        ∙ ap (λ x. x % pagesize) e
        ∙ low_offset pagesize p' l' hp' hl' in
      (omega arith, same)

module _ (pages lines : List ℕ) (pagesize nlines npages nmpages : ℕ) (some_line : 0 < nlines)
    (layout : IsLayout pagesize nmpages pages) (enough : npages ≤ nmpages)
    (inside : (j : ℕ) → j < nlines → get_or lines j 0 < pagesize)
    (apart : (i j : ℕ)
      → i < nlines
      → j < nlines
      → get_or lines i 0 ≡ get_or lines j 0
      → i ≡ j) where
  pub node-distinct :
      (s t : ℕ)
      → s < npages * nlines
      → t < npages * nlines
      → node pages lines nlines npages some_line s ≡ node pages lines nlines npages some_line t
      → s ≡ t
  node-distinct s t hs ht e =
      let ps : s / nlines < npages = (div-lt_iff_lt-mul some_line).1 hs in
      let pt : t / nlines < npages = (div-lt_iff_lt-mul some_line).1 ht in
      let ls : s % nlines < nlines = mod-lt s some_line in
      let lt : t % nlines < nlines = mod-lt t some_line in
      let (pe, le) =
        offset_inj pagesize (get_or pages (s / nlines) 0) (get_or pages (t / nlines) 0)
          (get_or lines (s % nlines) 0) (get_or lines (t % nlines) 0)
          (layout.multiple (s / nlines) (omega arith)) (layout.multiple (t / nlines) (omega arith))
          (inside (s % nlines) ls) (inside (t % nlines) lt) e in
      let same_page : s / nlines ≡ t / nlines =
        layout.distinct (s / nlines) (t / nlines) (omega arith) (omega arith) pe in
      let same_line : s % nlines ≡ t % nlines = apart (s % nlines) (t % nlines) ls lt le in
      sym (div-add-mod' s nlines)
      ∙ ap₂ (λ q r. q * nlines + r) same_page same_line
      ∙ div-add-mod' t nlines

module _ (k line : ℕ) (pos : 0 < line) (fits : 2 ^ k * line ≤ 2 ^ 64) (lines : List ℕ)
    (made : words_initialize true (2 ^ k) line ≡ some lines) where
  pub lines-inside : (j : ℕ) → j < 2 ^ k → get_or lines j 0 < 2 ^ k * line
  lines-inside j h =
      let (i, below, here, back) = words_initialize-involution k line j made fits h in
      omega (arith, mul-le-mul_right {m = suc i} {n = 2 ^ k} line below)

  pub lines-apart : (i j : ℕ) → i < 2 ^ k → j < 2 ^ k → get_or lines i 0 ≡ get_or lines j 0 → i ≡ j
  lines-apart i j hi hj e =
      let (x, _, x_at, x_back) = words_initialize-involution k line i made fits hi in
      let (y, _, y_at, y_back) = words_initialize-involution k line j made fits hj in
      let same : x ≡ y = mul_inj x y line pos (sym x_at ∙ e ∙ y_at) in
      mul_inj i j line pos (sym x_back ∙ ap (λ z. get_or lines z 0) same ∙ y_back)

  pub lines-IsEachLine : IsEachLine (2 ^ k) line lines
  lines-IsEachLine = record {
    is_offset = λ j h.
        let (i, below, here, back) = words_initialize-involution k line j made fits h in
        (i, below, here);
    is_found = λ i h.
        let (j, below, here, back) = words_initialize-involution k line i made fits h in
        (j, below, back);
    is_once = lines-apart;
  }
