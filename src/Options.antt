-- ===== src/Options.antt =====
-- The option parser of lmbench3/src/getopt.c. A C string is the list of its codes without the
-- terminator, so that a read at its length gives 0; `av` has `ac` strings.
pub mod Progress
use repo_support_tools.Base.{
  ℕ, zero, suc, ◌+◌, Bool, true, false, ◌&&◌, ◌||◌, not, Option, none, some, List, [], ◌∷◌, length,
  get_or, drop, if◌then◌else◌, leb, ◌==◌,
}

-- the globals and the static variable `n`
pub record Options : Type 0 where
  pub optind : ℕ
  pub n : ℕ
  pub optarg : Option (List ℕ)
  pub optopt : ℕ

-- what a call returns: EOF, an option letter, '?', or nothing where the assertion fails
pub data Answer : Type 0 where
  eof : Answer
  letter : ℕ → Answer
  question : Answer
  aborted : Answer

abbrev pub char_at : List ℕ → ℕ → ℕ
char_at s i = get_or s i 0

abbrev pub arg : List (List ℕ) → ℕ → List ℕ
arg av i = get_or av i []

-- `if (!optind) { optind = 1; n = 1; }`
unfoldable pub begin : Options → Options
begin s = if s.optind == 0 then record s { optind = 1; n = 1 } else s

-- the `for` over `opts`: the rest of `opts` from the letter on
unfoldable pub find_letter : List ℕ → ℕ → List ℕ
find_letter [] c = []
find_letter (o ∷ opts) c = let rest = find_letter opts c in if o == c then o ∷ opts else rest

-- the option that stands alone: `t[1]` is none of ':' '|' ';'
abbrev pub stands_alone : ℕ → Bool
stands_alone c = not (c == 58) && not (c == 124) && not (c == 59)

unfoldable pub next_letter : List ℕ → Options → Options
next_letter word s =
    if char_at word (s.n + 1) == 0
    then record s { optind = s.optind + 1; n = 1 }
    else record s { n = s.n + 1 }

-- the option that takes an argument, from the test of the cozied one on
unfoldable pub take_argument : List (List ℕ) → (letter next : ℕ) → Options → Answer × Options
take_argument av o next s =
    let word = arg av s.optind in
    let following = arg av (s.optind + 1) in
    if not (char_at word (s.n + 1) == 0)
    then (letter o, record s { optarg = some (drop (s.n + 1) word); optind = s.optind + 1; n = 1 })
    else if next == 124
    then (letter o, record s { optarg = none; optind = s.optind + 1; n = 1 })
    else if next == 59
    then (question, record s { optarg = none; optind = s.optind + 1; optopt = o })
    else if (s.optind + 1 == length av) || (char_at following 0 == 45)
    then (question, record s { optopt = char_at word s.n })
    else (letter o, record s { optarg = some following; optind = s.optind + 2; n = 1 })

-- what is left of `getopt` when the letter has been looked up
unfoldable pub handle : List (List ℕ) → List ℕ → Options → Answer × Options
handle av [] s = (question, record s { optopt = char_at (arg av s.optind) s.n })
handle av (o ∷ rest) s =
    if stands_alone (char_at rest 0)
    then (letter o, next_letter (arg av s.optind) s)
    else take_argument av o (char_at rest 0) s

-- the test for the end of the options
abbrev pub at_end : List (List ℕ) → Options → Bool
at_end av s =
    leb (length av) s.optind
    || not (char_at (arg av s.optind) 0 == 45)
    || (char_at (arg av s.optind) 1 == 0)

unfoldable pub getopt : List (List ℕ) → List ℕ → Options → Answer × Options
getopt av opts s =
    let s' = begin s in
    let c = char_at (arg av s'.optind) s'.n in
    if at_end av s'
    then (eof, s')
    else if c == 0
    then (aborted, s')
    else handle av (find_letter opts c) s'
