-- ===== src/Timing/Buffers.antt =====
-- The small helpers of lmbench3/src/lib_timing.c on buffers and sizes: `bread`, `touch`, `last` and
-- `bytes`. A word is a number below 2^64, and sums of words wrap around as on every machine that
-- lmbench runs on.
pub mod Sum
use repo_support_tools.Base.{
  ℕ, zero, suc, ◌+◌, ◌-◌, ◌*◌, ◌%◌, ◌^◌, Bool, ◌||◌, Option, none, some, List, get_or, set, ltb,
  leb, ◌==◌, if◌then◌else◌,
}
use repo_support_tools.Base.Text.{last_char}

-- the sum that the body of a loop writes out: `k` words from index `p` on
unfoldable pub unrolled : List ℕ → (p k : ℕ) → ℕ
unrolled words p zero = 0
unrolled words p (suc k) = unrolled words p k + get_or words (p + k) 0

-- `for (next = p + size; next <= end; p = next, next += size)` on a buffer of `nbytes` bytes: where
-- `p` is at its end, and the sum. Each round moves on, so a fuel of `nbytes` rounds is enough.
unfoldable pub read_loop : List ℕ → (nbytes size fuel p sum : ℕ) → ℕ × ℕ
unfolding unrolled
read_loop words nbytes size zero p sum = (p, sum)
read_loop words nbytes size (suc fuel) p sum =
    let rest =
      read_loop words nbytes size fuel (p + size) ((sum + unrolled words p size) % 2 ^ 64) in
    if leb (8 * (p + size)) nbytes then rest else (p, sum)

unfoldable pub bread : List ℕ → (nbytes : ℕ) → ℕ
unfolding read_loop
bread words nbytes =
    let (p, sum) = read_loop words nbytes 128 nbytes 0 0 in
    let (p', sum') = read_loop words nbytes 16 nbytes p sum in
    (read_loop words nbytes 1 nbytes p' sum').1

-- `touch`, with `left` bytes to go: the bytes at `at` and at every `psize` from there on become 1. A
-- page is not empty, so `left` rounds are enough fuel.
unfoldable pub touch_from : (psize fuel at left : ℕ) → List ℕ → List ℕ
touch_from psize zero at left buf = buf
touch_from psize (suc fuel) at left buf =
    let rest = touch_from psize fuel (at + psize) (left - psize) (set buf at 1) in
    if ltb 0 left then rest else buf

unfoldable pub touch : (psize nbytes : ℕ) → List ℕ → List ℕ
unfolding touch_from
touch psize nbytes buf = touch_from psize nbytes 0 nbytes buf

-- `scan` is what `sscanf` reads with "%llu".
unfoldable pub bytes : (scan : List ℕ → Option ℕ) → List ℕ → ℕ
bytes scan s = elim (scan s) [
  | none ↦ 0
  | some n ↦
      let kilo = if (last_char s == b'k') || (last_char s == b'K') then n * 1024 % 2 ^ 64 else n in
      if (last_char s == b'm') || (last_char s == b'M') then kilo * (1024 * 1024) % 2 ^ 64 else kilo
]
