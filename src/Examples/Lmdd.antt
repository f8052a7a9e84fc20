-- ===== src/Examples/Lmdd.antt =====
-- The parts of lmdd (lmbench3/src/lmdd.c) at concrete arguments.
use repo_support_tools.Base.{
  ℕ, ◌/◌, ◌≡◌, ◌↔◌, Bool, true, false, not, none, List, [], ◌∷◌, refl, arith, All, ◌==◌, ◌&&◌,
}
use repo_support_tools.Base.Int.{pos, negsuc, ◌+ℤ◌, ◌-ℤ◌}
use repo_support_tools.Base.Text.{codes, atol, leading, signed, skip_blanks}
use repo_support_tools.Lmdd.Arguments.{
  cmds, chkarg, pass_common, getarg, getarg_from, arg_value, scale, not_given,
}
use repo_support_tools.Lmdd.Arguments.Accepted.{IsKey, AbbreviatesSome, chkarg_iff}
use repo_support_tools.Lmdd.Histogram.{bucket, find_bucket}
use repo_support_tools.Lmdd.Settings.{Settings, configure, read_settings}
use repo_support_tools.Lmdd.Settings.Checked.{Sound, configure-Sound}
use repo_support_tools.Lmdd.Transfer.{
  Transfer, Round, more, fill_words, check_words, first_state, transfer,
}
use repo_support_tools.Lmdd.Transfer.Written.{IsPlain, Copies, FinishesWith}
use repo_support_tools.Lmdd.Transfer.Copy.{transfer-FinishesWith}
use repo_support_tools.Lmdd.Transfer.Pattern.{check_words-fill_words}

abbrev no_equals : List ℕ → Bool
no_equals [] = true
no_equals (c ∷ s) = not (c == b'=') && no_equals s

abbrev none_equals : List (List ℕ) → Bool
none_equals [] = true
none_equals (s ∷ ss) = no_equals s && none_equals ss

is_false : (b : Bool) → not b ≡ true → b ≡ false
is_false true h = absurd (cc)
is_false false h = refl

and_true : (a b : Bool) → (a && b) ≡ true → (a ≡ true) × (b ≡ true)
and_true true b h = (refl, h)
and_true false b h = absurd (cc)

IsKey-no_equals : (s : List ℕ) → no_equals s ≡ true → IsKey s
IsKey-no_equals [] h = tt
IsKey-no_equals (c ∷ s) h =
    let both = and_true (not (c == b'=')) (no_equals s) h in
    (is_false (c == b'=') both.0, IsKey-no_equals s both.1)

every-IsKey : (ss : List (List ℕ)) → none_equals ss ≡ true → All IsKey ss
every-IsKey [] h = tt
every-IsKey (s ∷ ss) h =
    let both = and_true (no_equals s) (none_equals ss) h in
    (IsKey-no_equals s both.0, every-IsKey ss both.1)

cmds-IsKey : All IsKey cmds
cmds-IsKey = every-IsKey cmds refl

chkarg_iff_example : (chkarg cmds (codes "b=4k") ≡ true) ↔ AbbreviatesSome cmds (codes "b=4k")
chkarg_iff_example = chkarg_iff cmds (codes "b=4k") cmds-IsKey

-- An abbreviated argument passes, but no setting reads it.
abbreviated :
    (chkarg cmds (codes "b=4k") ≡ true)
    × (getarg (λ i. i) (codes "bs=") (codes "b=4k" ∷ []) ≡ not_given)
unfolding chkarg pass_common getarg getarg_from
abbreviated = (refl, refl)

-- With limits that are no multiple of 10 apart, the last times have no bucket.
lost_time : bucket 14 (pos 15) (pos 0) ≡ none
unfolding bucket find_bucket ◌+ℤ◌ ◌-ℤ◌
lost_time = refl

abbrev times : List ℕ
times = 57 ∷ 120 ∷ 3 ∷ []

abbrev arguments : List (List ℕ)
arguments =
    codes "if=internal" ∷ codes "of=data" ∷ codes "count=2" ∷ codes "bs=8k" ∷ codes "opat=1" ∷ []

configure-Sound_example : Sound (configure (λ i. i) arguments true)
configure-Sound_example = configure-Sound (λ i. i) arguments true

-- the settings of "norepeat= rand=1m count=2"
abbrev random_settings : Settings
random_settings =
    read_settings (λ i. i) (codes "norepeat=1" ∷ codes "rand=1m" ∷ codes "count=2" ∷ [])

abbrev start_state : Transfer
start_state = first_state random_settings (negsuc 1) (pos 3)

check_words-fill_words_example :
    check_words random_settings (negsuc 1) (pos 3) (fill_words 0 0 2 (7 ∷ 7 ∷ [])) 0 2 start_state
    ≡ more start_state
unfolding first_state read_settings getarg getarg_from
check_words-fill_words_example =
    check_words-fill_words random_settings (negsuc 1) (pos 3) (7 ∷ 7 ∷ []) 2 start_state
      (omega arith)

abbrev answer : Round
answer = record {
  draws = (λ x. x / 2) ∷ [];
  moved = pos 8192;
  arrives = λ words. words;
  read_mics = 5;
  child = true;
  moved2 = pos 8192;
  write_mics = 7;
}

-- the settings of "count=1 bs=8", and a round of such a copy
abbrev copy_settings : Settings
copy_settings = read_settings (λ i. i) (codes "count=1" ∷ codes "bs=8" ∷ [])

copy_settings-IsPlain : IsPlain copy_settings (pos 3) (pos 4)
unfolding read_settings getarg getarg_from arg_value scale atol skip_blanks signed leading
copy_settings-IsPlain = record {
  from = refl;
  to = refl;
  no_last = refl;
  no_rand = refl;
  no_inpat = refl;
  no_outpat = refl;
  no_touch = refl;
  no_fork = refl;
  no_padding = refl;
  has_count = refl;
  buffers = 1;
  some_buffers = omega arith;
  has_buffers = refl;
}

abbrev block_read : Round
block_read = record {
  draws = [];
  moved = pos 8;
  arrives = λ old. 5 ∷ 6 ∷ [];
  read_mics = 5;
  child = true;
  moved2 = pos 8;
  write_mics = 7;
}

block_read-Copies : Copies block_read (5 ∷ 6 ∷ [])
block_read-Copies = record {
  bytes = 8;
  some_bytes = refl;
  reads = refl;
  takes = refl;
  gives = λ old. refl;
}

transfer-FinishesWith_example : FinishesWith ((5 ∷ 6 ∷ []) ∷ []) (
    transfer copy_settings
      (pos 3)
      (pos 4)
      (block_read ∷ answer ∷ [])
      (first_state copy_settings (pos 3) (pos 4)))
unfolding read_settings getarg getarg_from arg_value scale atol skip_blanks signed leading
transfer-FinishesWith_example =
    transfer-FinishesWith copy_settings (pos 3) (pos 4) copy_settings-IsPlain (block_read ∷ [])
      ((5 ∷ 6 ∷ []) ∷ []) answer (block_read-Copies, tt) refl
