-- ===== src/Http.antt =====
-- lmhttp.c of lmbench3/src, a small web server: how it sends a file (`rdwr`, `mmap_rdwr`, `fake`)
-- and how it buffers its log (`logit`, `die`). What `read` and `write` return is an argument: a
-- write gives none for -1, or the number of bytes that it takes, at most those that it is given.
pub mod Sent
pub mod Logged
use repo_support_tools.Base.{
  ℕ, zero, suc, ◌+◌, ◌-◌, Bool, true, false, Option, none, some, List, [], ◌∷◌, ◌++◌, length, take,
  drop, if◌then◌else◌, ltb, leb, ◌==◌,
}

-- what a loop of writes leaves: the bytes that were sent, those that were not, and whether a write
-- has failed
pub record Sending : Type 0 where
  pub sent : List ℕ
  pub left : List ℕ
  pub failed : Bool

-- `do { wrote = write(to, buf + done, size - done); ... } while (done < size);`, where `left` is
-- what follows `done`
unfoldable pub mmap_rdwr : List (Option ℕ) → (left : List ℕ) → Sending
mmap_rdwr [] left = record { sent = []; left = left; failed = false }
mmap_rdwr (none ∷ ws) left = record { sent = []; left = left; failed = true }
mmap_rdwr (some n ∷ ws) left =
    let rest = mmap_rdwr ws (drop n left) in
    if length (drop n left) == 0
    then record { sent = take n left; left = drop n left; failed = false }
    else record rest { sent = take n left ++ rest.sent }

-- The inner `for` of `rdwr`, from the index `i`: what is sent of a buffer. Each write begins at the
-- start of the buffer, as in the source. After a write that fails at the index 0 the loop goes on
-- with the index -1: it writes one byte more than was read, and exits.
unfoldable pub write_buffer : List (Option ℕ) → (buf : List ℕ) (i : ℕ) → Option (List ℕ)
write_buffer [] buf i = some []
write_buffer (w ∷ ws) buf i =
    let again = write_buffer ws buf (i - 1) in
    if ltb i (length buf) then by w (λ n. write_buffer ws buf (i + n)) again else some []
  where
    before : List ℕ → Option (List ℕ) → Option (List ℕ)
    before xs none = none
    before xs (some ys) = some (xs ++ ys)

    by : Option ℕ → (ℕ → Option (List ℕ)) → Option (List ℕ) → Option (List ℕ)
    by none next again = if i == 0 then none else again
    by (some n) next again = before (take n (take (length buf - i) buf)) (next n)

-- the size that `fake` has left to send
unfoldable pub fake : List (Option ℕ) → (size : ℕ) → ℕ
fake [] size = size
fake (w ∷ ws) size = if size == 0 then 0 else by w (λ n. fake ws (size - n))
  where
    by : Option ℕ → (ℕ → ℕ) → ℕ
    by none next = size
    by (some n) next = next n

-- the file of the log and its buffer, of which `nbytes` bytes are used
pub record Log : Type 0 where
  pub logfile : List ℕ
  pub logbuf : List ℕ

-- `sizeof(logbuf)`
abbrev pub logbuf_size : ℕ
logbuf_size = 65536

-- `write(logfile, logbuf, nbytes)`, where `write` takes the first `takes` bytes, or all if there are
-- fewer: 0 if it fails. What it returns is not looked at, and the buffer is empty after it.
unfoldable pub flush : (takes : ℕ) → Log → Log
flush takes log = record { logfile = log.logfile ++ take takes log.logbuf; logbuf = [] }

-- `logit`, for the line that `sprintf` makes
unfoldable pub logit : (takes : ℕ) → List ℕ → Log → Log
logit takes line log =
    let room = if leb logbuf_size (length log.logbuf + length line) then flush takes log else log in
    record room { logbuf = room.logbuf ++ line }

-- `die`
unfoldable pub die : (takes : ℕ) → Log → Log
die takes log = if length log.logbuf == 0 then log else flush takes log

-- the lines of the requests, in order, each with what `write` takes
unfoldable pub log_lines : List (ℕ × List ℕ) → Log → Log
log_lines [] log = log
log_lines ((takes, line) ∷ lines) log = log_lines lines (logit takes line log)
