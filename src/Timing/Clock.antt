-- ===== src/Timing/Clock.antt =====
-- The clock of lmbench3/src/lib_timing.c: `tvsub`, `tvdelta`, `stop`, `settime`, `gettime`, `now`,
-- `delta`, and the times that the globals `start_tv` and `stop_tv` hold.
-- `long` fields are integers without bounds: the times of a run are far from 2^63. `uint64` wraps.
pub mod Laws
use repo_support_tools.Base.{
  ℕ, ◌+◌, ◌-◌, ◌*◌, ◌/◌, ◌%◌, ◌^◌, Bool, true, false, ◌&&◌, ◌||◌, if◌then◌else◌, ◌==◌,
}
use repo_support_tools.Base.Int.{ℤ, pos, negsuc, pos_part, neg_part, ◌+ℤ◌, ◌-ℤ◌, ltb_ℤ}

-- `struct timeval`
pub record Timeval : Type 0 where
  pub sec : ℤ
  pub usec : ℤ

abbrev pub zero_tv : Timeval
zero_tv = record { sec = pos 0; usec = pos 0 }

-- `(uint64) x`
abbrev pub to_u64 : ℤ → ℕ
to_u64 (pos n) = n % 2 ^ 64
to_u64 (negsuc n) = 2 ^ 64 - 1 - n % 2 ^ 64

-- the borrow: `if (tdiff->tv_usec < 0 && tdiff->tv_sec > 0) { ... }`
abbrev pub borrow : Timeval → Timeval
borrow t =
    if ltb_ℤ t.usec (pos 0) && ltb_ℤ (pos 0) t.sec
    then record { sec = t.sec -ℤ pos 1; usec = t.usec +ℤ pos 1000000 }
    else t

-- `tvsub(tdiff, t1, t0)`: what is stored through `tdiff`
unfoldable pub tvsub : Timeval → Timeval → Timeval
tvsub t1 t0 =
    let d = borrow (record { sec = t1.sec -ℤ t0.sec; usec = t1.usec -ℤ t0.usec }) in
    if ltb_ℤ d.usec (pos 0) || ltb_ℤ t1.sec t0.sec then zero_tv else d

-- `m = t.tv_sec; m *= 1000000; m += t.tv_usec;` on a `uint64 m`
abbrev pub micros_u64 : Timeval → ℕ
micros_u64 t = (to_u64 t.sec * 1000000 % 2 ^ 64 + to_u64 t.usec) % 2 ^ 64

unfoldable pub tvdelta : Timeval → Timeval → ℕ
tvdelta start stop = micros_u64 (tvsub stop start)

-- the globals
pub record Clock : Type 0 where
  pub start_tv : Timeval
  pub stop_tv : Timeval
  pub iterations : ℕ

-- `start(NULL)` and `stop(NULL, NULL)`, given what `gettimeofday` returns
unfoldable pub start : Timeval → Clock → Clock
start t c = record c { start_tv = t }

unfoldable pub stop : Timeval → Clock → ℕ × Clock
stop t c = (tvdelta c.start_tv t, record c { stop_tv = t })

unfoldable pub settime : ℕ → Clock → Clock
settime usecs c = record c {
  start_tv = zero_tv;
  stop_tv = record { sec = pos (usecs / 1000000); usec = pos (usecs % 1000000) };
}

unfoldable pub gettime : Clock → ℕ
gettime c = tvdelta c.start_tv c.stop_tv

unfoldable pub save_n : ℕ → Clock → Clock
save_n n c = record c { iterations = n }

unfoldable pub get_n : Clock → ℕ
get_n c = c.iterations

unfoldable pub now : Timeval → ℕ
now t = micros_u64 t

-- `delta()`: `last` is the static variable, `t` what `gettimeofday` returns
unfoldable pub delta : Timeval → Timeval → ℕ × Timeval
delta last t = if to_u64 last.usec == 0 then (0, t) else (micros_u64 (tvsub t last), t)
