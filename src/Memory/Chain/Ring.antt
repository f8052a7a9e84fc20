-- ===== src/Memory/Chain/Ring.antt =====
-- Chains that run once round: what a loop that stores at each place the next one leaves behind.
use Prim.Native.Nat.add
use native.Mathlib.Nat.{add-zero, zero-add, mod-eq_of_lt, mod-lt, mod-add-mod, add-mod_left}
use repo_support_tools.Base.{
  ℕ, zero, suc, ◌+◌, ◌*◌, ◌%◌, ◌≤◌, ◌<◌, ◌≡◌, ◌≢◌, refl, sym, ap, ◌∙◌, ltb, if◌then◌else◌, arith,
  ℕ_discrete, dec_lt,
}
use repo_support_tools.Memory.Chain.{Cells, store, deref, mem_benchmark_0}

-- the place behind place `t` of `n`
abbrev pub next : ℕ → ℕ → ℕ
next n t = if ltb (t + 1) n then t + 1 else 0

store_self : (p v : ℕ) (cells : Cells) → store p v cells p ≡ v
store_self p v cells = ground arith

store_ne : (p v q : ℕ) (cells : Cells) → p ≢ q → store p v cells q ≡ cells q
store_ne p v q cells ne = ground arith

module _ (a : ℕ → ℕ) (n : ℕ) where
  -- Stores at the addresses of the places from `t` on, `k` of them.
  unfoldable pub link : ℕ → ℕ → Cells → Cells
  link t zero cells = cells
  link t (suc k) cells = link (t + 1) k (store (a t) (a (next n t)) cells)

  -- A chain through `n` places that comes back to the first.
  pub record IsRing (cells : Cells) : Type 0 where
    pub step : (t : ℕ) → t < n → cells (a t) ≡ a (next n t)

  pub link-zero : (t : ℕ) (cells : Cells) → link t 0 cells ≡ cells
  unfolding link
  link-zero t cells = refl

  pub link-one : (t : ℕ) (cells : Cells) → link t 1 cells ≡ store (a t) (a (next n t)) cells
  unfolding link
  link-one t cells = refl

  pub link-add :
      (t j k : ℕ) (cells : Cells) → link t (j + k) cells ≡ link (t + j) k (link t j cells)
  unfolding link
  link-add t zero k cells = rw (zero-add, add-zero)
  link-add t (suc j) k cells =
      let shifted : t + suc j ≡ t + 1 + j = omega arith in
      rw (add.suc, shifted) (link-add (t + 1) j k (store (a t) (a (next n t)) cells))

  module _ (distinct : (s t : ℕ) → s < n → t < n → a s ≡ a t → s ≡ t) where
    link-keeps :
        (t k s : ℕ) (cells : Cells) → t + k ≤ n → s < t → link t k cells (a s) ≡ cells (a s)
    unfolding link
    link-keeps t zero s cells h lt = refl
    link-keeps t (suc k) s cells h lt =
        link-keeps (t + 1) k s (store (a t) (a (next n t)) cells) (omega arith) (omega arith)
        ∙ store_ne (a t) (a (next n t)) (a s) cells
            (λ e. absurd (omega (arith, distinct t s (omega arith) (omega arith) e)))

    link-sets :
        (t k s : ℕ) (cells : Cells)
        → t + k ≤ n
        → t ≤ s
        → s < t + k
        → link t k cells (a s) ≡ a (next n s)
    unfolding link
    link-sets t zero s cells h le lt = absurd (omega arith)
    link-sets t (suc k) s cells h le lt = elim (ℕ_discrete t s) [
      | yes e ↦ rw (← e) (
          link-keeps (t + 1) k t (store (a t) (a (next n t)) cells) (omega arith) (omega arith)
          ∙ store_self (a t) (a (next n t)) cells)
      | no ne ↦
          link-sets (t + 1) k s (store (a t) (a (next n t)) cells) (omega arith) (omega arith)
            (omega arith)
    ]

    pub link-IsRing : (cells : Cells) → IsRing (link 0 n cells)
    link-IsRing cells = record {
      step = λ t h. link-sets 0 n t cells (omega arith) (omega arith) (omega arith);
    }

  round : (t k : ℕ) → t + 1 ≡ n → (0 + k) % n ≡ (t + suc k) % n
  round t k e =
      let shifted : t + suc k ≡ n + k = omega arith in rw (zero-add, shifted, add-mod_left)

  -- Going round a ring: `k` dereferences from place `t` lead to place `t + k`, counted round.
  pub deref-IsRing :
      (cells : Cells) → IsRing cells → (k t : ℕ) → t < n → deref cells k (a t) ≡ a ((t + k) % n)
  unfolding deref
  deref-IsRing cells ring zero t h =
      ap a (let e : (t + 0) % n ≡ t = rw (add-zero, mod-eq_of_lt h) in sym e)
  deref-IsRing cells ring (suc k) t h = elim (dec_lt (t + 1) n) [
    | yes inside ↦
        let e : next n t ≡ t + 1 = ground arith in
        rw (ring.step t h, e, deref-IsRing cells ring k (t + 1) inside)
          (ap (λ m. a (m % n)) (omega arith))
    | no last ↦
        let e : next n t ≡ 0 = ground arith in
        rw (ring.step t h, e, deref-IsRing cells ring k 0 (omega arith))
          (ap a (round t k (omega arith)))
  ]

  -- A run of the benchmark's loop from a place of a ring ends at a place of it: a hundred places
  -- further for each iteration, counted round.
  pub mem_benchmark_0-IsRing :
      (cells : Cells)
      → IsRing cells
      → (iterations t : ℕ) → t < n
      → mem_benchmark_0 iterations cells (a t) ≡ a ((t + iterations * 100) % n)
  unfolding mem_benchmark_0
  mem_benchmark_0-IsRing cells ring zero t h = ap a (sym (rw add-zero (mod-eq_of_lt h)))
  mem_benchmark_0-IsRing cells ring (suc m) t h =
      let lands : (t + 100) % n < n = mod-lt (t + 100) (omega arith) in
      let regrouped : t + 100 + m * 100 ≡ t + suc m * 100 = omega arith in
      rw (
        deref-IsRing cells ring 100 t h,
        mem_benchmark_0-IsRing cells ring m ((t + 100) % n) lands,
        mod-add-mod (t + 100) n (m * 100),
        regrouped,
      )
