-- ===== src/Examples/Http.antt =====
-- lmhttp.c of lmbench3/src on short files and lines.
use repo_support_tools.Base.{
  ℕ, ◌<◌, ◌≡◌, false, Option, none, some, List, [], ◌∷◌, length, refl, arith,
}
use repo_support_tools.Http.{
  logbuf_size, mmap_rdwr, write_buffer, fake, die, flush, logit, log_lines,
}
use repo_support_tools.Http.Sent.{mmap_rdwr-sends}
use repo_support_tools.Http.Logged.{join, log_lines_complete}

abbrev file : List ℕ
file = 1 ∷ 2 ∷ 3 ∷ []

abbrev writes : List (Option ℕ)
writes = some 2 ∷ some 1 ∷ some 1 ∷ []

mmap_rdwr-sends_example :
    ((mmap_rdwr writes file).sent ≡ file) × ((mmap_rdwr writes file).failed ≡ false)
mmap_rdwr-sends_example =
    mmap_rdwr-sends writes file (omega arith, (omega arith, (omega arith, tt))) (omega arith)
      (omega arith)

-- After a write that takes two bytes, `rdwr` sends the first byte again.
sent_again : write_buffer (some 2 ∷ some 1 ∷ []) file 0 ≡ some (1 ∷ 2 ∷ 1 ∷ [])
unfolding write_buffer
sent_again = refl

faked : fake (some 65536 ∷ some 100 ∷ none ∷ []) 65636 ≡ 0
unfolding fake
faked = refl

abbrev lines : List (ℕ × List ℕ)
lines = (65536, 65 ∷ 10 ∷ []) ∷ (70000, 66 ∷ 67 ∷ 10 ∷ []) ∷ []

log_lines_complete_example :
    (length (log_lines lines (record { logfile = []; logbuf = [] })).logbuf < logbuf_size)
    × ((die 65536 (log_lines lines (record { logfile = []; logbuf = [] }))).logfile ≡ join lines)
log_lines_complete_example =
    log_lines_complete lines 65536 ((omega arith, omega arith), ((omega arith, omega arith), tt))
      (omega arith)

-- A write that takes one byte loses the others.
lost_bytes : (die 1 (log_lines lines (record { logfile = []; logbuf = [] }))).logfile ≡ 65 ∷ []
unfolding die log_lines logit flush
lost_bytes = refl
