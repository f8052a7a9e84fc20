-- ===== src/Timing/Clock/Laws.antt =====
-- What the clock of lmbench3/src/lib_timing.c measures.
use repo_support_tools.Base.{
  ℕ, ◌+◌, ◌-◌, ◌*◌, ◌^◌, ◌≤◌, ◌<◌, ◌≡◌, refl, if◌then◌else◌, ◌==◌, arith, dec_lt,
}
use repo_support_tools.Base.Int.{pos, negsuc, ◌+ℤ◌, ◌-ℤ◌}
use repo_support_tools.Timing.Clock.{
  Timeval, zero_tv, micros_u64, tvsub, tvdelta, Clock, start, stop, settime, gettime, get_n, delta,
}

-- A time as `gettimeofday` gives it: `s` seconds and `u` microseconds.
abbrev pub at : ℕ → ℕ → Timeval
at s u = record { sec = pos s; usec = pos u }

-- the microseconds since the epoch
abbrev pub total : ℕ → ℕ → ℕ
total s u = s * 1000000 + u

sub_pos : (a b : ℕ) → b ≤ a → pos a -ℤ pos b ≡ pos (a - b)
unfolding ◌-ℤ◌
sub_pos a b h = ground arith

sub_neg : (a b : ℕ) → a < b → pos a -ℤ pos b ≡ negsuc (b - a - 1)
unfolding ◌-ℤ◌
sub_neg a b h = ground arith

add_back : (k : ℕ) → k < 1000000 → negsuc k +ℤ pos 1000000 ≡ pos (1000000 - k - 1)
unfolding ◌+ℤ◌
add_back k h = ground arith

-- `tvsub` on the four orders of the fields.
tvsub-forward : (s u s' u' : ℕ) → s ≤ s' → u ≤ u' → tvsub (at s' u') (at s u) ≡ at (s' - s) (u' - u)
unfolding tvsub
tvsub-forward s u s' u' hs hu = rw (sub_pos s' s hs, sub_pos u' u hu) (ground arith)

tvsub-borrow :
    (s u s' u' : ℕ)
    → s < s'
    → u' < u
    → u < 1000000
    → tvsub (at s' u') (at s u) ≡ at (s' - s - 1) (1000000 - (u - u' - 1) - 1)
unfolding tvsub
tvsub-borrow s u s' u' hs hu lt =
    rw
      (
        sub_pos s' s (omega arith),
        sub_neg u' u hu,
        add_back (u - u' - 1) (omega arith),
        sub_pos (s' - s) 1 (omega arith),
      )
      (ground arith)

tvsub-backward_usec : (s u u' : ℕ) → u' < u → tvsub (at s u') (at s u) ≡ zero_tv
unfolding tvsub
tvsub-backward_usec s u u' hu = rw (sub_pos s s (omega arith), sub_neg u' u hu) (ground arith)

tvsub-backward_sec : (s u s' u' : ℕ) → s' < s → tvsub (at s' u') (at s u) ≡ zero_tv
unfolding tvsub
tvsub-backward_sec s u s' u' hs = rw (sub_neg s' s hs) (ground arith)

-- `tvdelta` is the exact number of microseconds between two times in order, and 0 if the clock went
-- backwards. The microseconds of each are below 1000000 and the seconds below 2^43.
pub tvdelta-total :
    (s u s' u' : ℕ)
    → u < 1000000
    → u' < 1000000
    → s < 2 ^ 43
    → s' < 2 ^ 43
    → tvdelta (at s u) (at s' u') ≡ total s' u' - total s u
unfolding tvdelta
tvdelta-total s u s' u' hu hu' hs hs' = elim (dec_lt s' s) [
  | yes back ↦ rw (tvsub-backward_sec s u s' u' back) (omega arith)
  | no fwd ↦ elim (dec_lt u' u) [
    | no up ↦ rw (tvsub-forward s u s' u' (omega arith) (omega arith)) (omega arith)
    | yes down ↦ elim (dec_lt s s') [
      | yes later ↦ rw (tvsub-borrow s u s' u' later down hu) (omega arith)
      | no same ↦
          let e : s' ≡ s = omega arith in rw (e, tvsub-backward_usec s u u' down) (omega arith)
    ]
  ]
]

-- A timed run: `stop` returns the microseconds since the last `start`, `gettime` gives the same
-- afterwards, and the iteration count is left alone.
stop-start :
    (s u s' u' : ℕ) (c : Clock)
    → u < 1000000
    → u' < 1000000
    → s < 2 ^ 43
    → s' < 2 ^ 43
    → let (usecs, c') = stop (at s' u') (start (at s u) c) in
      (usecs ≡ total s' u' - total s u) × (gettime c' ≡ usecs) × (get_n c' ≡ get_n c)
unfolding stop start gettime get_n
stop-start s u s' u' c hu hu' hs hs' = (tvdelta-total s u s' u' hu hu' hs hs', refl, refl)

-- `gettime` gives back what `settime` was given.
gettime-settime : (usecs : ℕ) (c : Clock) → usecs < 2 ^ 64 → gettime (settime usecs c) ≡ usecs
unfolding gettime settime tvdelta tvsub ◌-ℤ◌ ◌+ℤ◌
gettime-settime usecs c h = ground arith

tvdelta_lem : (a b : Timeval) → tvdelta a b ≡ micros_u64 (tvsub b a)
unfolding tvdelta
tvdelta_lem a b = refl

-- The microseconds that `delta` reports are those since the call before, if that one was made at a
-- time with a microsecond part other than 0, and none if it was made on a full second.
pub delta-total :
    (s u s' u' : ℕ)
    → u < 1000000
    → u' < 1000000
    → s < 2 ^ 43
    → s' < 2 ^ 43
    → (delta (at s u) (at s' u')).0 ≡ (if u == 0 then 0 else total s' u' - total s u)
unfolding delta
delta-total s u s' u' hu hu' hs hs' =
    rw (← tvdelta_lem (at s u) (at s' u'), tvdelta-total s u s' u' hu hu' hs hs') (ground arith)
