-- ===== src/Disk.antt =====
-- disk.c of lmbench3/src, which measures the bandwidth of the zones of a disk and its seek times:
-- `disksize`, `seekto`, `seek` and `zone`. What the disk and the clock answer are arguments.
pub mod Size
pub mod Seeks
use repo_support_tools.Base.{
  ℕ, zero, suc, ◌+◌, ◌-◌, ◌*◌, ◌/◌, ◌%◌, ◌^◌, Bool, true, false, ◌&&◌, ◌||◌, Option, none, some,
  List, [], ◌∷◌, if◌then◌else◌, ltb, leb, ◌==◌,
}

-- `FORWARD`, `FORWARD1`, `FORWARD2`
abbrev pub forward : ℕ
forward = 536870912

abbrev pub forward1 : ℕ
forward1 = 67108864

abbrev pub forward2 : ℕ
forward2 = 1048576

-- One of the loops of `disksize`: the last offset before one that cannot be read. `readable off`:
-- `seekto(fd, off)` returns 0, and the read after it gives all bytes.
unfoldable pub go_forward : (readable : ℕ → Bool) (stride fuel off : ℕ) → Option ℕ
go_forward readable stride zero off = none
go_forward readable stride (suc fuel) off =
    let rest = go_forward readable stride fuel ((off + stride) % 2 ^ 64) in
    if readable ((off + stride) % 2 ^ 64) then rest else some off

-- the next loop, from where the one before has ended
abbrev pub go_on : (readable : ℕ → Bool) (stride fuel : ℕ) → Option ℕ → Option ℕ
go_on readable stride fuel none = none
go_on readable stride fuel (some off) = go_forward readable stride fuel off

-- `opened`: `open` gives a descriptor
unfoldable pub disksize : (opened : Bool) (readable : ℕ → Bool) (fuel : ℕ) → Option ℕ
disksize opened readable fuel =
    if opened
    then go_on readable forward2 fuel
        (go_on readable forward1 fuel (go_forward readable forward fuel 0))
    else some 0

-- `BIGSEEK`
abbrev pub bigseek : ℕ
bigseek = 2 ^ 30

-- The steps of `seekto` without `llseek`, where no `lseek` fails: each is at most `BIGSEEK`.
unfoldable pub seek_steps : (fuel left : ℕ) → List ℕ
seek_steps zero left = left ∷ []
seek_steps (suc fuel) left =
    let rest = seek_steps fuel (left - bigseek) in
    if ltb bigseek left then bigseek ∷ rest else left ∷ []

-- `stride = n`, where `stride` is an `int`, and `if (stride < 512) stride = 512;`: the value wraps,
-- and one that becomes negative gives 512 as well.
unfoldable pub int_stride : ℕ → ℕ
int_stride n = let m = n % 2 ^ 32 in if ltb m 512 || leb (2 ^ 31) m then 512 else m

-- then `stride += 511; stride >>= 9; stride <<= 9;`, for a sum that an `int` holds
unfoldable pub round_stride : ℕ → ℕ
round_stride n = (int_stride n + 511) / 512 * 512

abbrev pub seekpoints : ℕ
seekpoints = 2000

-- The stride of `seek`: `none` where `stride + 511`, or `stride*2` in its loop, overflows an `int`.
unfoldable pub seek_stride : (size : ℕ) → Option ℕ
seek_stride size =
    let stride = round_stride (size / seekpoints) in
    if leb (2 ^ 30) stride then none else some stride

-- the `while`: the offsets that are sought, in order
unfoldable pub seek_loop : (stride fuel begin end : ℕ) → List ℕ
seek_loop stride zero begin end = []
seek_loop stride (suc fuel) begin end =
    let rest = seek_loop stride fuel (begin + stride) (end - stride) in
    if leb (begin + stride * 2) end then (end - stride) ∷ (begin + stride) ∷ rest else []

-- all offsets that `seek` seeks
unfoldable pub seek_offsets : (size : ℕ) → Option (List ℕ)
seek_offsets size = by (seek_stride size)
  where
    by : Option ℕ → Option (List ℕ)
    by none = none
    by (some stride) = some (0 ∷ seek_loop stride size 0 size)

abbrev pub toosmall : ℕ
toosmall = 1000

abbrev pub toobig : ℕ
toobig = 1000000

-- The line that is printed for a seek: the bytes and the microseconds, for times that are neither
-- cached nor remapped.
unfoldable pub seek_line : (bytes usecs : ℕ) → List (ℕ × ℕ)
seek_line bytes usecs = if ltb toosmall usecs && ltb usecs toobig then (bytes, usecs) ∷ [] else []

abbrev pub zonepoints : ℕ
zonepoints = 150

-- The block size and the stride of `zone`, for a block size that an `int` holds: `none` where
-- `stride + 511` overflows an `int`.
unfoldable pub zone_sizes : (bsize size : ℕ) → Option (ℕ × ℕ)
zone_sizes bsize size =
    let stride = round_stride (size / zonepoints) in
    let block = if ltb stride bsize then 262144 else bsize in
    if leb (2 ^ 31) (int_stride (size / zonepoints) + 511)
    then none
    else some (block, if ltb stride block then block else stride)

-- what one round of the loop of `zone` gets: the results of the two reads, the time of the second
-- one, and whether `seekto` fails
pub record ZoneRound : Type 0 where
  pub first : ℕ
  pub second : ℕ
  pub usecs : ℕ
  pub seek_fails : Bool

-- the offsets and the times that `zone` prints, from the offset `off`
unfoldable pub zone_loop : (bsize stride : ℕ) → List ZoneRound → (off : ℕ) → List (ℕ × ℕ)
zone_loop bsize stride [] off = []
zone_loop bsize stride (r ∷ rs) off =
    let rest = zone_loop bsize stride rs (off + 1024 + bsize + stride) in
    if (r.first == 1024) && (r.second == bsize)
    then (off + 1024 + bsize, r.usecs) ∷ (if r.seek_fails then [] else rest)
    else []

-- `zone`, none where its first read or write of 512 bytes fails, and where its stride overflows
unfoldable pub zone : (bsize size : ℕ) (first_fails : Bool) → List ZoneRound → Option (List (ℕ × ℕ))
zone bsize size first_fails rs = by (zone_sizes bsize size)
  where
    by : Option (ℕ × ℕ) → Option (List (ℕ × ℕ))
    by none = none
    by (some (block, stride)) = if first_fails then none else some (zone_loop block stride rs 512)
