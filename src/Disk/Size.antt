-- ===== src/Disk/Size.antt =====
-- The size that `disksize` of lmbench3/src/disk.c finds.
use repo_support_tools.Base.{
  ℕ, zero, suc, ◌+◌, ◌-◌, ◌*◌, ◌/◌, ◌%◌, ◌^◌, ◌≤◌, ◌<◌, ◌≡◌, Bool, true, Bool-cases, inl, inr, some,
  refl, ap, ◌∙◌, arith, ltb,
}
use repo_support_tools.Disk.{forward, forward1, forward2, go_forward, disksize}

-- a disk of `limit` bytes, up to the last offset that can be read
abbrev pub EndsAt : (readable : ℕ → Bool) (limit : ℕ) → Type 0
EndsAt readable limit = (n : ℕ) → readable n ≡ ltb n limit

more_steps : (off stride k : ℕ) → off + stride + k * stride ≡ off + suc k * stride
more_steps off stride k = omega arith

module _ (readable : ℕ → Bool) (limit : ℕ) (ends : EndsAt readable limit) where
  -- the last multiple of the stride from `off` that can be read
  record Reached (stride off : ℕ) (s : ℕ) : Type 0 where
    steps : ℕ
    sum : s ≡ off + steps * stride
    below : s < limit
    near : limit ≤ s + stride

  go_forward-Reached :
      (stride fuel off : ℕ)
      → 0 < stride
      → stride ≤ 2 ^ 30
      → limit ≤ 2 ^ 63
      → off < limit
      → limit < off + fuel
      → (s : ℕ) × (go_forward readable stride fuel off ≡ some s) × Reached stride off s
  unfolding go_forward
  go_forward-Reached stride zero off pos small fits inside enough = absurd (omega arith)
  go_forward-Reached stride (suc fuel) off pos small fits inside enough =
      let exact : (off + stride) % 2 ^ 64 ≡ off + stride = omega arith in
      elim (Bool-cases (ltb (off + stride) limit)) [
        | inl e ↦
            let lt : off + stride < limit = ground arith in
            let r = go_forward-Reached stride fuel (off + stride) pos small fits lt (omega arith) in
            let found = r.2 in
            rw (exact, ends (off + stride), e)
              (
                r.0,
                r.1,
                record {
                  steps = suc found.steps;
                  sum = found.sum ∙ more_steps off stride found.steps;
                  below = found.below;
                  near = found.near;
                },
              )
        | inr e ↦
            rw (exact, ends (off + stride), e)
              (
                off,
                refl,
                record { steps = 0; sum = omega arith; below = inside; near = ground arith },
              )
      ]

  -- Given that just the offsets below `limit` can be read, that this is at least 1 and at most
  -- 2 ^ 63, and more fuel than that, `disksize` returns the last multiple of 1 MB that can be read.
  pub disksize-last :
      (fuel : ℕ)
      → 0 < limit
      → limit ≤ 2 ^ 63
      → limit < fuel
      → disksize true readable fuel ≡ some ((limit - 1) / forward2 * forward2)
  unfolding disksize
  disksize-last fuel pos fits enough =
      let (a, ea, ra) =
        go_forward-Reached forward fuel 0 (omega arith) (omega arith) fits pos (omega arith) in
      let below = ra.below in
      let (b, eb, rb) =
        go_forward-Reached forward1 fuel a (omega arith) (omega arith) fits below (omega arith) in
      let below' = rb.below in
      let (c, ec, rc) =
        go_forward-Reached forward2 fuel b (omega arith) (omega arith) fits below' (omega arith) in
      let below'' = rc.below in
      let near = rc.near in
      let sa = ra.sum in
      let sb = rb.sum in let sc = rc.sum in rw (ea, eb, ec) (ap (λ n. some n) (omega arith))
