-- ===== src/Lmdd/Arguments.antt =====
-- The arguments of lmdd (lmbench3/src/lmdd.c): `cmds`, `chkarg` and `getarg`. An argument is its list
-- of codes; `av` is given without the name of the program, so that its first element has index 1.
pub mod Accepted
pub mod Numbers
use repo_support_tools.Base.{
  ℕ, ◌+◌, ◌*◌, ◌-◌, ◌%◌, ◌^◌, Bool, true, false, ◌||◌, List, [], ◌∷◌, map, length, drop, get_or,
  ◌==◌, if◌then◌else◌,
}
use repo_support_tools.Base.Text.{codes, starts_with, last_char, atol}

abbrev pub cmds : List (List ℕ)
cmds =
    codes "bs"
    ∷ codes "bufs"
    ∷ codes "count"
    ∷ codes "flush"
    ∷ codes "fork"
    ∷ codes "fsync"
    ∷ codes "if"
    ∷ codes "ipat"
    ∷ codes "label"
    ∷ codes "mismatch"
    ∷ codes "move"
    ∷ codes "of"
    ∷ codes "opat"
    ∷ codes "print"
    ∷ codes "rand"
    ∷ codes "poff"
    ∷ codes "skip"
    ∷ codes "sync"
    ∷ codes "touch"
    ∷ codes "usleep"
    ∷ codes "hash"
    ∷ codes "append"
    ∷ codes "rtmax"
    ∷ codes "wtmax"
    ∷ codes "rtmin"
    ∷ codes "wtmin"
    ∷ codes "realtime"
    ∷ codes "notrunc"
    ∷ codes "end"
    ∷ codes "start"
    ∷ codes "time"
    ∷ codes "srand"
    ∷ codes "padin"
    ∷ codes "norepeat"
    ∷ codes "timeopen"
    ∷ codes "nocreate"
    ∷ codes "osync"
    ∷ []

-- `for (a = arg, b = cmds[i]; *a && *b && *a == *b; a++, b++);`: what `a` points to at the end
unfoldable pub pass_common : (a b : List ℕ) → List ℕ
pass_common [] b = []
pass_common (c ∷ a) [] = c ∷ a
pass_common (c ∷ a) (d ∷ b) = let rest = pass_common a b in if c == d then rest else c ∷ a

-- the loop of `chkarg` over the commands: whether it returns before its end, where lmdd exits
unfoldable pub chkarg : List (List ℕ) → List ℕ → Bool
unfolding pass_common
chkarg [] arg = false
chkarg (b ∷ bs) arg = (get_or (pass_common arg b) 0 0 == b'=') || chkarg bs arg

-- the `switch` of `getarg` on the last character
unfoldable pub scale : (suffix bs : ℕ) → ℕ
scale c bs =
    if c == b'K'
    then bs * 1000 % 2 ^ 64
    else if c == b'k'
    then bs * 2 ^ 10 % 2 ^ 64
    else if c == b'M'
    then bs * 1000000 % 2 ^ 64
    else if c == b'm'
    then bs * 2 ^ 20 % 2 ^ 64
    else if c == b'G'
    then bs * 1000000000 % 2 ^ 64
    else if c == b'g'
    then bs * 2 ^ 30 % 2 ^ 64
    else bs

-- `(uint64)-1`: what `getarg` returns for an argument that is not given
abbrev pub not_given : ℕ
not_given = 2 ^ 64 - 1

-- `address i` is the address of `av[i]`.
module _ (address : ℕ → ℕ) where
  unfoldable pub arg_value : (s : List ℕ) (i : ℕ) (arg : List ℕ) → ℕ
  unfolding scale
  arg_value s i arg =
      if starts_with (codes "label") arg
      then address i + length s
      else scale (last_char arg) (atol (drop (length s) arg))

  -- the loop of `getarg`, from index `i` on
  unfoldable pub getarg_from : (s : List ℕ) (i : ℕ) → List (List ℕ) → ℕ
  unfolding arg_value
  getarg_from s i [] = not_given
  getarg_from s i (arg ∷ av) =
      if starts_with s arg then arg_value s i arg else getarg_from s (i + 1) av

  unfoldable pub getarg : List ℕ → List (List ℕ) → ℕ
  unfolding getarg_from
  getarg s av = getarg_from s 1 av
