-- ===== src/Lmdd/Files.antt =====
-- `getfile` of lmdd (lmbench3/src/lmdd.c), with the flags of a file and what `open` returns.
use repo_support_tools.Base.{
  ℕ, Bool, ◌||◌, not, Option, none, some, List, [], ◌∷◌, length, drop, get_or, ◌==◌, if◌then◌else◌,
}
use repo_support_tools.Base.Int.{ℤ, pos, negsuc}
use repo_support_tools.Base.Text.{codes, starts_with, same_text}
use repo_support_tools.Lmdd.Arguments.{getarg}
use repo_support_tools.Lmdd.Settings.{given_u64}

-- `oflags`, without `O_WRONLY`
pub record Flags : Type 0 where
  pub truncate : Bool
  pub create : Bool
  pub append : Bool
  pub osync : Bool

-- what `open` is asked for
pub data Request : Type 0 where
  write_to : List ℕ → Flags → Request
  read_from : List ℕ → Request

-- What `getfile` returns (nothing where it exits), and the name that it keeps in `output`.
pub record Opened : Type 0 where
  pub descriptor : Option ℤ
  pub output : Option (List ℕ)

-- -2: the file is internal
abbrev pub internal : ℤ
internal = negsuc 1

abbrev pub standard : ℤ → Opened
standard d = record { descriptor = some d; output = none }

-- `if (ret == -1) error(...)`
abbrev pub checked : ℤ → Option ℤ
checked (pos d) = some (pos d)
checked (negsuc d) = if d == 0 then none else some (negsuc d)

-- `open_file` is `open`; `address` gives the addresses of the arguments.
module _ (open_file : Request → ℤ) (address : ℕ → ℕ) (av : List (List ℕ)) where
  abbrev pub has : List ℕ → Bool
  has s = given_u64 (getarg address s av)

  unfoldable pub output_flags : Flags
  output_flags = record {
    truncate = not (has (codes "notrunc=") || has (codes "append="));
    create = not (has (codes "nocreate="));
    append = has (codes "append=");
    osync = has (codes "osync=");
  }

  -- the branch for an argument that begins with an o
  unfoldable pub open_output : (len : ℕ) → List ℕ → Opened
  unfolding output_flags
  open_output len arg =
      if same_text (codes "of=internal") arg
      then standard internal
      else if same_text (codes "of=stdout") arg
          || same_text (codes "of=1") arg
          || same_text (codes "of=-") arg
      then standard (pos 1)
      else if same_text (codes "of=stderr") arg || same_text (codes "of=2") arg
      then standard (pos 2)
      else record {
        descriptor = checked (open_file (write_to (drop len arg) output_flags));
        output = some (drop len arg);
      }

  unfoldable pub open_input : (len : ℕ) → List ℕ → Opened
  open_input len arg =
      if same_text (codes "if=internal") arg
      then standard internal
      else if same_text (codes "if=stdin") arg
          || same_text (codes "if=0") arg
          || same_text (codes "if=-") arg
      then standard (pos 0)
      else record { descriptor = checked (open_file (read_from (drop len arg))); output = none }

  -- the loop over the arguments
  unfoldable pub getfile : List ℕ → List (List ℕ) → Opened
  unfolding open_output open_input
  getfile s [] = standard internal
  getfile s (arg ∷ args) =
      if starts_with s arg
      then (if get_or arg 0 0 == b'o'
          then open_output (length s) arg
          else open_input (length s) arg)
      else getfile s args
