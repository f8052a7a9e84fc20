-- ===== src/Disk/Seeks.antt =====
-- The seeks of `seek` in lmbench3/src/disk.c, which flips between the two ends of the disk.
use repo_support_tools.Base.{
  ℕ, zero, suc, ◌+◌, ◌-◌, ◌*◌, ◌/◌, ◌%◌, ◌≤◌, ◌<◌, ◌≡◌, Bool-cases, inl, inr, ◌||◌, ◌^◌, true,
  false, some, List, [], ◌∷◌, length, leb, ltb, refl, ap, ◌∙◌, arith,
}
use repo_support_tools.Disk.{
  int_stride, round_stride, seek_stride, seekpoints, seek_loop, seek_offsets,
}

-- how far the head moves for each offset, from where it stands
unfoldable pub distances : (head : ℕ) → List ℕ → List ℕ
distances head [] = []
distances head (p ∷ ps) = (p - head + (head - p)) ∷ distances p ps

-- `n` distances, each a stride less than the one before
unfoldable pub shrinking : (stride n d : ℕ) → List ℕ
shrinking stride zero d = []
shrinking stride (suc n) d = (d - stride) ∷ shrinking stride n (d - stride)

pub round_stride-multiple :
    (n : ℕ)
    → (512 ≤ round_stride n)
      × (round_stride n % 512 ≡ 0)
      × (n + 1024 ≤ 2 ^ 30 → (n ≤ round_stride n) × (round_stride n < 2 ^ 30))
unfolding round_stride int_stride
round_stride-multiple n = elim (Bool-cases (ltb (n % 2 ^ 32) 512 || leb (2 ^ 31) (n % 2 ^ 32))) [
  | inl e ↦ rw (e) (omega arith, omega arith, λ h. (small n h e, omega arith))
  | inr e ↦ rw (e) (large n e, omega arith, λ h. (omega arith, omega arith))
]
  where
    small :
        (n : ℕ)
        → n + 1024 ≤ 2 ^ 30
        → (ltb (n % 2 ^ 32) 512 || leb (2 ^ 31) (n % 2 ^ 32)) ≡ true
        → n ≤ 512
    small n h e = ground arith

    large :
        (n : ℕ)
        → (ltb (n % 2 ^ 32) 512 || leb (2 ^ 31) (n % 2 ^ 32)) ≡ false
        → 512 ≤ (n % 2 ^ 32 + 511) / 512 * 512
    large n e = let more : 512 ≤ n % 2 ^ 32 = ground arith in omega arith

seek_loop-distances :
    (stride fuel begin end : ℕ)
    → 0 < stride
    → begin ≤ end
    → end < begin + fuel + stride
    → (distances begin (seek_loop stride fuel begin end)
        ≡ shrinking stride (length (seek_loop stride fuel begin end)) (end - begin))
      × (end - begin < suc (suc (length (seek_loop stride fuel begin end))) * stride)
unfolding seek_loop distances shrinking
seek_loop-distances stride zero begin end pos le enough = (refl, omega arith)
seek_loop-distances stride (suc fuel) begin end pos le enough =
    elim (Bool-cases (leb (begin + stride * 2) end)) [
      | inr e ↦ rw (e) (refl, ground arith)
      | inl e ↦
          let room : begin + stride * 2 ≤ end = ground arith in
          let rest =
            seek_loop-distances stride fuel (begin + stride) (end - stride) pos (omega arith)
              (omega arith) in
          let left = seek_loop stride fuel (begin + stride) (end - stride) in
          let d = end - begin - stride in
          let there : end - stride - begin + (begin - (end - stride)) ≡ d = omega arith in
          let back : begin + stride - (end - stride) + (end - stride - (begin + stride))
              ≡ d - stride =
            omega arith in
          let same : end - stride - (begin + stride) ≡ d - stride = omega arith in
          let near = rest.1 in
          rw (e, there, back)
            (
              ap (λ l. d ∷ (d - stride) ∷ l) (rest.0 ∙ ap (shrinking stride (length left)) same),
              omega arith,
            )
    ]

-- Given a size whose 2000th part and 1024 more are at most 2 ^ 30, as for any disk up to 2 TB, `seek`
-- flips between the two ends of the disk: each of its seeks is one stride, of whole sectors of 512
-- bytes and at least the 2000th part, shorter than the one before. The first is one stride shorter
-- than the disk, and less than two strides are left after the last.
pub seek_offsets-distances :
    (size : ℕ)
    → size / seekpoints + 1024 ≤ 2 ^ 30
    → (stride : ℕ) × (ps : List ℕ) × (seek_stride size ≡ some stride)
      × (seek_offsets size ≡ some (0 ∷ ps))
      × (distances 0 ps ≡ shrinking stride (length ps) size)
      × (size < suc (suc (length ps)) * stride)
      × (stride % 512 ≡ 0)
      × (size / seekpoints ≤ stride)
unfolding seek_offsets seek_stride
seek_offsets-distances size h =
    let stride = round_stride (size / seekpoints) in
    let (sector, whole, bounds) = round_stride-multiple (size / seekpoints) in
    let (above, below) = bounds h in
    let fits : leb (2 ^ 30) stride ≡ false = ground arith in
    let s = seek_loop-distances stride size 0 size (omega arith) (omega arith) (omega arith) in
    let zeroed : size - 0 ≡ size = omega arith in
    let ps = seek_loop stride size 0 size in
    let near = s.1 in
    rw (fits) (
      stride,
      ps,
      refl,
      refl,
      s.0 ∙ ap (shrinking stride (length ps)) zeroed,
      omega arith,
      whole,
      above,
    )
