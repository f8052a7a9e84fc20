-- ===== src/Http/Logged.antt =====
-- The log of lmhttp.c of lmbench3/src.
use mathlib.Core.List.{append_assoc, append-nil}
use repo_support_tools.Base.{
  ℕ, zero, suc, ◌+◌, ◌≤◌, ◌<◌, ◌≡◌, Bool-cases, inl, inr, List, [], ◌∷◌, ◌++◌, length,
  length-append, take, true, ◌==◌, All, leb, refl, sym, ap, ◌∙◌, arith,
}
use repo_support_tools.Http.{Log, logbuf_size, flush, logit, die, log_lines}

abbrev pub join : List (ℕ × List ℕ) → List ℕ
join [] = []
join ((takes, l) ∷ ls) = l ++ join ls

-- a line fits the array that `sprintf` writes, and a write of the whole buffer is not cut short
abbrev pub IsKept : ℕ × List ℕ → Type 0
IsKept (takes, l) = (length l ≤ 1040) × (logbuf_size ≤ takes)

-- the log so far, in the file and in the buffer
abbrev logged : Log → List ℕ
logged log = log.logfile ++ log.logbuf

take_whole : (n : ℕ) (l : List ℕ) → length l ≤ n → take n l ≡ l
take_whole zero [] h = refl
take_whole zero (x ∷ l) h = absurd (omega arith)
take_whole (suc n) [] h = refl
take_whole (suc n) (x ∷ l) h = ap (λ r. x ∷ r) (take_whole n l (omega arith))

flush-logged :
    (takes : ℕ) (log : Log) → length log.logbuf ≤ takes → (flush takes log).logfile ≡ logged log
unfolding flush
flush-logged takes log h = ap (λ l. log.logfile ++ l) (take_whole takes log.logbuf h)

logit-logged :
    (takes : ℕ) (line : List ℕ) (log : Log)
    → IsKept (takes, line)
    → length log.logbuf < logbuf_size
    → (logged (logit takes line log) ≡ logged log ++ line)
      × (length (logit takes line log).logbuf < logbuf_size)
unfolding logit flush
logit-logged takes line log kept room =
    let short : length line ≤ 1040 = kept.0 in
    let whole : logbuf_size ≤ takes = kept.1 in
    elim (Bool-cases (leb logbuf_size (length log.logbuf + length line))) [
      | inl e ↦ rw (e) (ap (λ l. l ++ line) (flush-logged takes log (omega arith)), omega arith)
      | inr e ↦
          let n = length-append log.logbuf line in
          rw (e) (sym (append_assoc log.logfile log.logbuf line), ground arith)
    ]

log_lines-logged :
    (lines : List (ℕ × List ℕ)) (log : Log)
    → All IsKept lines
    → length log.logbuf < logbuf_size
    → (logged (log_lines lines log) ≡ logged log ++ join lines)
      × (length (log_lines lines log).logbuf < logbuf_size)
unfolding log_lines
log_lines-logged [] log kept room = (sym (append-nil (logged log)), room)
log_lines-logged ((takes, line) ∷ lines) log kept room =
    let one = logit-logged takes line log kept.0 room in
    let rest = log_lines-logged lines (logit takes line log) kept.1 one.1 in
    (rest.0 ∙ ap (λ l. l ++ join lines) one.0 ∙ append_assoc (logged log) line (join lines), rest.1)

die-logged :
    (takes : ℕ) (log : Log) → length log.logbuf ≤ takes → (die takes log).logfile ≡ logged log
unfolding die
die-logged takes log h = elim (Bool-cases (length log.logbuf == 0)) [
  | inl e ↦
      rw (e)
        (sym (append-nil log.logfile) ∙ ap (λ l. log.logfile ++ l) (sym (no_bytes log.logbuf e)))
  | inr e ↦ rw (e) (flush-logged takes log h)
]
  where
    no_bytes : (l : List ℕ) → (length l == 0) ≡ true → l ≡ []
    no_bytes [] e = refl
    no_bytes (x ∷ l) e = absurd (ground arith)

-- Given lines that fit the array of `logit`, and that no write to the file of the log takes less than
-- it is given, the buffer of the log never overflows, and after `die` the file of the log has all
-- lines, in order.
pub log_lines_complete :
    (lines : List (ℕ × List ℕ)) (takes : ℕ)
    → All IsKept lines
    → logbuf_size ≤ takes
    → (length (log_lines lines (record { logfile = []; logbuf = [] })).logbuf < logbuf_size)
      × ((die takes (log_lines lines (record { logfile = []; logbuf = [] }))).logfile ≡ join lines)
log_lines_complete lines takes kept whole =
    let empty : Log = record { logfile = []; logbuf = [] } in
    let l = log_lines-logged lines empty kept (omega arith) in
    let room : length (log_lines lines empty).logbuf < logbuf_size = l.1 in
    (room, die-logged takes (log_lines lines empty) (omega arith) ∙ l.0)
