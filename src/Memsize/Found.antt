-- ===== src/Memsize/Found.antt =====
-- The size that memsize.c of lmbench3/src finds.
use repo_support_tools.Base.{
  ℕ, zero, suc, ◌+◌, ◌*◌, ◌/◌, ◌%◌, ◌^◌, ◌≤◌, ◌<◌, ◌≡◌, ◌⊎◌, inl, inr, true, false, Bool-cases,
  some, refl, ap, ◌∙◌, arith, ltb, leb, ◌==◌,
}
use native.Mathlib.Nat.{pow-succ', one-le-pow, pow-le-pow_right}
use repo_support_tools.Memsize.{
  Host, mb, test_malloc, halve, step_up, refine, start_size, found_from, found_size,
}

-- `malloc` gives memory up to a limit
abbrev pub HasLimit : Host → ℕ → Type 0
HasLimit host limit = (n : ℕ) → test_malloc host n ≡ leb n limit

module _ (host : Host) (limit : ℕ) (has : HasLimit host limit) where
  step_up-near :
      (d size max : ℕ)
      → size ≤ limit
      → limit < size + 2 * (d * mb)
      → size + 2 * (d * mb) ≤ max
      → max < 2 ^ 64
      → (step_up host max d size ≤ limit)
        × (limit < step_up host max d size + d * mb)
        × (step_up host max d size + d * mb ≤ max)
  unfolding step_up
  step_up-near d size max below near room fits =
      let exact : (size + d * mb) % 2 ^ 64 ≡ size + d * mb = omega arith in
      let inside : ltb max (size + d * mb) ≡ false = ground arith in
      elim (Bool-cases (leb (size + d * mb) limit)) [
        | inl e ↦ rw (exact, inside, has (size + d * mb), e) (ground arith)
        | inr e ↦ rw (exact, inside, has (size + d * mb), e) (ground arith)
      ]

  refine_zero : (max fuel size : ℕ) → refine host max fuel 0 size ≡ size
  unfolding refine
  refine_zero max zero size = refl
  refine_zero max (suc fuel) size = refl

  -- after the steps down from `2 ^ i`, the size is the limit up to 1 MB
  refine-near :
      (i fuel size max : ℕ)
      → i < fuel
      → size ≤ limit
      → limit < size + 2 * (2 ^ i * mb)
      → size + 2 * (2 ^ i * mb) ≤ max
      → max < 2 ^ 64
      → (refine host max fuel (2 ^ i) size ≤ limit)
        × (limit < refine host max fuel (2 ^ i) size + mb)
  unfolding refine
  refine-near i zero size max h below near room fits = absurd (omega arith)
  refine-near zero (suc fuel) size max h below near room fits =
      let s = step_up-near 1 size max below near room fits in
      rw (refine_zero max fuel (step_up host max 1 size)) (s.0, s.1)
  refine-near (suc i) (suc fuel) size max h below near room fits =
      let s = step_up-near (2 ^ suc i) size max below near room fits in
      let double : 2 ^ suc i ≡ 2 * 2 ^ i = pow-succ' 2 i in
      let half : 2 ^ suc i / 2 ≡ 2 ^ i = omega arith in
      let pos : (2 ^ suc i == 0) ≡ false = (let p = one-le-pow i 2 (omega arith) in ground arith) in
      rw (pos, half)
        (refine-near i fuel (step_up host max (2 ^ suc i) size) max (omega arith) s.0 (omega arith)
          (omega arith) fits)

  -- where the first size can be had, nothing is added to it
  refine_full : (fuel d size : ℕ) → size + d * mb < 2 ^ 64 → refine host size fuel d size ≡ size
  unfolding refine step_up
  refine_full zero d size h = refl
  refine_full (suc fuel) d size h = elim (Bool-cases (d == 0)) [
    | inl e ↦ rw (e) refl
    | inr e ↦
        let pos : 0 < d = ground arith in
        let exact : (size + d * mb) % 2 ^ 64 ≡ size + d * mb = omega arith in
        let over : ltb size (size + d * mb) ≡ true = ground arith in
        rw (e, exact, over) (refine_full fuel (d / 2) size (omega arith))
  ]

  -- the first size below `2 ^ suc k` MB that can be had, and twice of it
  record Halved (k : ℕ) (r : ℕ × ℕ) : Type 0 where
    exponent : ℕ
    lower : exponent ≤ k
    power : r.0 ≡ 2 ^ exponent * mb
    below : r.0 ≤ limit
    max : r.1 ≡ 2 * (2 ^ exponent * mb)
    above : limit < r.1

  halve_hit :
      (fuel size max : ℕ)
      → leb size limit ≡ true
      → halve host (suc fuel) size max ≡ some (size, max)
  unfolding halve
  halve_hit fuel size max e = rw (has size, e) refl

  halve_miss :
      (fuel size max : ℕ)
      → leb size limit ≡ false
      → halve host (suc fuel) size max ≡ halve host fuel (size / 2) size
  unfolding halve
  halve_miss fuel size max e = rw (has size, e) refl

  whole_Halved :
      (k : ℕ)
      → 2 ^ k * mb ≤ limit
      → limit < 2 * (2 ^ k * mb)
      → Halved k (2 ^ k * mb, 2 * (2 ^ k * mb))
  whole_Halved k h near = record {
    exponent = k;
    lower = omega arith;
    power = refl;
    below = h;
    max = refl;
    above = near;
  }

  halve-Halved :
      (k fuel : ℕ)
      → k < fuel
      → mb ≤ limit
      → limit < 2 * (2 ^ k * mb)
      → (r : ℕ × ℕ) × (halve host fuel (2 ^ k * mb) (2 * (2 ^ k * mb)) ≡ some r) × Halved k r
  unfolding halve
  halve-Halved k zero h enough near = absurd (omega arith)
  halve-Halved zero (suc fuel) h enough near =
      let here : leb mb limit ≡ true = ground arith in
      rw (has mb, here) ((mb, 2 * mb), refl, whole_Halved zero enough near)
  halve-Halved (suc k) (suc fuel) h enough near = elim (Bool-cases (leb (2 ^ suc k * mb) limit)) [
    | inl e ↦
        rw (has (2 ^ suc k * mb), e)
          ((2 ^ suc k * mb, 2 * (2 ^ suc k * mb)), refl, whole_Halved (suc k) (ground arith) near)
    | inr e ↦
        let double : 2 ^ suc k ≡ 2 * 2 ^ k = pow-succ' 2 k in
        let half : 2 ^ suc k * mb / 2 ≡ 2 ^ k * mb = omega arith in
        let max : 2 ^ suc k * mb ≡ 2 * (2 ^ k * mb) = omega arith in
        let over : limit < 2 ^ suc k * mb = ground arith in
        let r = halve-Halved k fuel (omega arith) enough (omega arith) in
        let found = r.2 in
        rw (has (2 ^ suc k * mb), e, half)
          (
            r.0,
            ap (halve host fuel (2 ^ k * mb)) max ∙ r.1,
            record {
              exponent = found.exponent;
              lower = (let l = found.lower in omega arith);
              power = found.power;
              below = found.below;
              max = found.max;
              above = found.above;
            },
          )
  ]

  -- the steps up from a size below `2 ^ 41` MB that was halved
  refine-Halved :
      (k : ℕ) (r : ℕ × ℕ)
      → k ≤ 40
      → Halved k r
      → (refine host r.1 64 (r.0 / (2 * mb)) r.0 ≤ limit)
        × (limit < refine host r.1 64 (r.0 / (2 * mb)) r.0 + mb)
  refine-Halved k r small found = by found.exponent refl
    where
      goal : Type 0
      goal =
          (refine host r.1 64 (r.0 / (2 * mb)) r.0 ≤ limit)
          × (limit < refine host r.1 64 (r.0 / (2 * mb)) r.0 + mb)

      by : (j : ℕ) → found.exponent ≡ j → goal
      by zero e =
          let power : r.0 ≡ 2 ^ 0 * mb = found.power ∙ ap (λ i. 2 ^ i * mb) e in
          let max : r.1 ≡ 2 * (2 ^ 0 * mb) = found.max ∙ ap (λ i. 2 * (2 ^ i * mb)) e in
          let none' : r.0 / (2 * mb) ≡ 0 = omega arith in
          let above = found.above in
          let below = found.below in rw (none', refine_zero r.1 64 r.0) (below, omega arith)
      by (suc i) e =
          let power : r.0 ≡ 2 ^ suc i * mb = found.power ∙ ap (λ n. 2 ^ n * mb) e in
          let max : r.1 ≡ 2 * (2 ^ suc i * mb) = found.max ∙ ap (λ n. 2 * (2 ^ n * mb)) e in
          let double : 2 ^ suc i ≡ 2 * 2 ^ i = pow-succ' 2 i in
          let delta : r.0 / (2 * mb) ≡ 2 ^ i = omega arith in
          let lower = found.lower in
          let short : suc i ≤ 40 = omega arith in
          let few : 2 ^ suc i ≤ 2 ^ 40 = pow-le-pow_right (omega arith) short in
          let above = found.above in
          let below = found.below in
          rw (delta)
            (refine-near i 64 r.0 r.1 (omega arith) below (omega arith) (omega arith) (omega arith))

  -- the search from `start` bytes ends there, or within 1 MB of the limit
  abbrev Searched : (start : ℕ) (r : ℕ × ℕ) → Type 0
  Searched start r =
      (halve host 65 start start ≡ some r)
      × (refine host r.1 64 (r.0 / (2 * mb)) r.0 ≤ limit)
      × ((refine host r.1 64 (r.0 / (2 * mb)) r.0 ≡ start)
          ⊎ (limit < refine host r.1 64 (r.0 / (2 * mb)) r.0 + mb))

  first_Searched :
      (start : ℕ) → start < 2 ^ 61 → leb start limit ≡ true → Searched start (start, start)
  first_Searched start small e =
      let full = refine_full 64 (start / (2 * mb)) start (omega arith) in
      let below : start ≤ limit = ground arith in
      (halve_hit 64 start start e, rw full below, inl full)

  lower_Searched :
      (k : ℕ)
      → k ≤ 40
      → mb ≤ limit
      → leb (2 ^ k * mb) limit ≡ false
      → (r : ℕ × ℕ) × Searched (2 ^ k * mb) r
  lower_Searched zero small enough e = absurd (ground arith)
  lower_Searched (suc k) small enough e =
      let double : 2 ^ suc k ≡ 2 * 2 ^ k = pow-succ' 2 k in
      let half : 2 ^ suc k * mb / 2 ≡ 2 ^ k * mb = omega arith in
      let max : 2 ^ suc k * mb ≡ 2 * (2 ^ k * mb) = omega arith in
      let h = halve-Halved k 64 (omega arith) enough (ground arith) in
      let near = refine-Halved k h.0 (omega arith) h.2 in
      (
        h.0,
        (
          halve_miss 64 (2 ^ suc k * mb) (2 ^ suc k * mb) e
              ∙ ap (λ n. halve host 64 n (2 ^ suc k * mb)) half
              ∙ ap (halve host 64 (2 ^ k * mb)) max
              ∙ h.1,
          near.0,
          inr near.1,
        ),
      )

  searched : (k : ℕ) → k ≤ 40 → mb ≤ limit → 2 ^ k ≤ 2 ^ 40 → (r : ℕ × ℕ) × Searched (2 ^ k * mb) r
  searched k small enough few = elim (Bool-cases (leb (2 ^ k * mb) limit)) [
    | inl e ↦ ((2 ^ k * mb, 2 ^ k * mb), first_Searched (2 ^ k * mb) (omega arith) e)
    | inr e ↦ lower_Searched k small enough e
  ]

found_from-some :
    (host : Host) (r : ℕ × ℕ)
    → found_from host (some r) ≡ some (refine host r.1 64 (r.0 / (2 * mb)) r.0)
unfolding found_from
found_from-some host r = refl

start_size_exact : (k : ℕ) → 2 ^ k ≤ 2 ^ 40 → start_size (some (2 ^ k)) ≡ 2 ^ k * mb
unfolding start_size
start_size_exact k few =
    let pos : 1 ≤ 2 ^ k = one-le-pow k 2 (omega arith) in
    let exact : 2 ^ k * mb % 2 ^ 64 ≡ 2 ^ k * mb = omega arith in
    let whole : ltb (2 ^ k * mb) mb ≡ false = ground arith in rw (exact, whole) refl

-- Given an argument that is a power of 2 up to 2 ^ 40, and that `malloc` gives memory just up to a
-- limit of at least 1 MB, memsize measures the size of the argument or one that is within 1 MB of
-- the limit, and never more than the limit.
pub found_size-nearest :
    (host : Host) (limit k : ℕ)
    → HasLimit host limit
    → k ≤ 40
    → mb ≤ limit
    → (s : ℕ) × (found_size host (some (2 ^ k)) ≡ some s)
      × (s ≤ limit)
      × ((s ≡ 2 ^ k * mb) ⊎ (limit < s + mb))
unfolding found_size
found_size-nearest host limit k has small enough =
    let few : 2 ^ k ≤ 2 ^ 40 = pow-le-pow_right (omega arith) small in
    let (r, (same, below, near)) = searched host limit has k small enough few in
    (
      refine host r.1 64 (r.0 / (2 * mb)) r.0,
      ap (λ n. found_from host (halve host 65 n n)) (start_size_exact k few)
          ∙ ap (found_from host) same
          ∙ found_from-some host r,
      below,
      near,
    )
