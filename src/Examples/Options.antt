-- ===== src/Examples/Options.antt =====
-- `getopt` (lmbench3/src/getopt.c) on two command lines.
use repo_support_tools.Base.{ℕ, ◌≡◌, none, List, [], ◌∷◌, inl, refl}
use repo_support_tools.Options.{
  Options, letter, question, aborted, begin, find_letter, next_letter, take_argument, handle,
  getopt,
}
use repo_support_tools.Options.Progress.{Places, MovesFrom, getopt-Places, getopt-MovesFrom}

abbrev fresh : Options
fresh = record { optind = 0; n = 0; optarg = none; optopt = 0 }

-- "prog", "-xa", "-b"
abbrev command : List (List ℕ)
command = (112 ∷ []) ∷ (45 ∷ 120 ∷ 97 ∷ []) ∷ (45 ∷ 98 ∷ []) ∷ []

-- "xa:b" and "xa;b"
abbrev colon : List ℕ
colon = 120 ∷ 97 ∷ 58 ∷ 98 ∷ []

abbrev semicolon : List ℕ
semicolon = 120 ∷ 97 ∷ 59 ∷ 98 ∷ []

getopt-Places_example : Places command (getopt command colon fresh)
getopt-Places_example =
    getopt-Places command colon fresh (refl, (refl, (refl, (refl, tt)))) (inl refl)

getopt-MovesFrom_example : MovesFrom command (begin fresh) (getopt command colon fresh)
getopt-MovesFrom_example = getopt-MovesFrom command colon fresh

-- An option with a semicolon at the end of its word leaves `n` behind the next word.
semicolon_aborts :
    let (first, s1) = getopt command semicolon fresh in
    let (second, s2) = getopt command semicolon s1 in
    let (third, s3) = getopt command semicolon s2 in
    (first ≡ letter 120) × (second ≡ question) × (third ≡ aborted)
unfolding getopt begin find_letter next_letter take_argument handle
semicolon_aborts = (refl, refl, refl)
