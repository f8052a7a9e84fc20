-- ===== src/Lmdd/Report.antt =====
-- `done` of lmdd (lmbench3/src/lmdd.c): what it does and prints at the end of a transfer. The
-- functions of lib_timing.c that print are named with the numbers that they get.
use repo_support_tools.Base.{
  ℕ, ◌*◌, ◌/◌, ◌%◌, ◌^◌, Bool, true, ◌||◌, not, List, [], ◌∷◌, ◌++◌, map, ◌==◌, if◌then◌else◌,
}
use repo_support_tools.Base.Int.{ℤ, pos, negsuc, ltb_ℤ}
use repo_support_tools.Lmdd.Settings.{Settings, given, given_u64, block}
use repo_support_tools.Lmdd.Histogram.{Row, histogram_rows}
use repo_support_tools.Lmdd.Transfer.{Transfer}

pub data Report : Type 0 where
  syncs : Report
  fsyncs_output : Report
  flushes_output : Report
  stops_clock : Report
  newline : Report
  label_at : ℕ → Report
  latency : (transfers size : ℕ) → Report
  micro : (transfers : ℕ) → Report
  kb : (bytes : ℕ) → Report
  mb : (bytes : ℕ) → Report
  bandwidth : (bytes times : ℕ) (verbose : Bool) → Report
  read_heading : Report
  write_heading : Report
  row : Row → Report

abbrev pub if_so : Bool → List Report → List Report
if_so b rs = if b then rs else []

-- the `switch` on `Print`
unfoldable pub figures : (print : ℤ) (bytes size : ℕ) → List Report
figures (negsuc n) bytes size = bandwidth bytes 1 true ∷ []
figures (pos n) bytes size =
    if n == 0
    then []
    else if n == 1
    then latency (bytes / size) size ∷ []
    else if n == 2
    then micro (bytes / size) ∷ []
    else if n == 3
    then kb bytes ∷ []
    else if n == 4
    then mb bytes ∷ []
    else bandwidth bytes 1 (not (n == 5)) ∷ []

-- `int_count <<= 2`
abbrev pub byte_count : Transfer → ℕ
byte_count s = s.int_count * 4 % 2 ^ 64

unfoldable pub done : Settings → Transfer → List Report
unfolding figures
done c s =
    if_so (ltb_ℤ (pos 0) c.sync) (syncs ∷ [])
    ++ if_so (ltb_ℤ (pos 0) c.fsync) (fsyncs_output ∷ [])
    ++ if_so (ltb_ℤ (pos 0) c.flush) (flushes_output ∷ [])
    ++ (stops_clock ∷ [])
    ++ if_so (c.hash || c.poff) (newline ∷ [])
    ++ if_so (given_u64 c.label) (label_at c.label ∷ [])
    ++ figures c.print (byte_count s) (block c)
    ++ if_so (given c.rtmax) (read_heading ∷ map row (histogram_rows s.rthist c.rtmax c.rtmin))
    ++ if_so (given c.wtmax) (write_heading ∷ map row (histogram_rows s.wthist c.wtmax c.wtmin))
