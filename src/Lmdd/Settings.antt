-- ===== src/Lmdd/Settings.antt =====
-- The settings of lmdd: the first half of `main` of lmbench3/src/lmdd.c, where it reads and checks its
-- arguments. `int` values are integers, `uint64` values numbers below 2^64.
pub mod Checked
use repo_support_tools.Base.{
  ℕ, zero, suc, ◌+◌, ◌-◌, ◌*◌, ◌/◌, ◌%◌, ◌^◌, Bool, true, false, ◌&&◌, ◌||◌, not, Option, none,
  some, List, [], ◌∷◌, ltb, ◌==◌, if◌then◌else◌,
}
use Prim.Native.Nat.{bit_and}
use repo_support_tools.Base.Int.{ℤ, pos, negsuc, pos_part, ltb_ℤ}
use repo_support_tools.Base.Text.{codes}
use repo_support_tools.Timing.Clock.{to_u64}
use repo_support_tools.Lmdd.Arguments.{cmds, chkarg, not_given, getarg}

-- a `uint64` that is stored in an `int`
abbrev pub to_int : ℕ → ℤ
to_int n = let m = n % 2 ^ 32 in if ltb m (2 ^ 31) then pos m else negsuc (2 ^ 32 - 1 - m)

-- `x != -1`, of an `int` and of a `uint64`
abbrev pub given : ℤ → Bool
given (pos n) = true
given (negsuc n) = not (n == 0)

abbrev pub given_u64 : ℕ → Bool
given_u64 n = not (n == not_given)

abbrev pub minus_one : ℤ
minus_one = negsuc 0

-- `a - b` on `uint64`, for numbers below 2^64
abbrev pub sub_u64 : ℕ → ℕ → ℕ
sub_u64 a b = (a + 2 ^ 64 - b) % 2 ^ 64

-- `ALIGN(x, bs)` for an `int` `bs` that is not negative: the mask is the sign-extended `~(bs - 1)`.
abbrev pub align_up : ℕ → ℕ → ℕ
align_up x bs = bit_and (sub_u64 (x + bs) 1) (sub_u64 0 bs)

pub record Settings : Type 0 where
  pub mismatch : ℤ
  pub inpat : ℤ
  pub outpat : ℤ
  pub bsize : ℤ
  pub slp : ℤ
  pub fork : ℤ
  pub fsync : ℤ
  pub sync : ℤ
  pub rand : ℕ
  pub first : ℕ
  pub last : ℕ
  pub time : ℤ
  pub srand : ℕ
  pub poff : Bool
  pub print : ℤ
  pub nbufs : ℤ
  pub realtime : ℤ
  pub rtmax : ℤ
  pub rtmin : ℤ
  pub wtmax : ℤ
  pub wtmin : ℤ
  pub timeopen : ℤ
  pub pad_in : ℤ
  pub touch : Bool
  pub hash : Bool
  pub label : ℕ
  pub count : ℕ
  pub size : ℕ
  pub flush : ℤ
  pub skip : ℕ
  pub norepeat : Bool

-- `if ((max != -1) && (max < 10)) max = 10;`
abbrev pub clamp_max : ℤ → ℤ
clamp_max x = if given x && ltb_ℤ x (pos 10) then pos 10 else x

-- `if ((max != -1) && (min == -1)) min = 0;`
abbrev pub default_min : (max min : ℤ) → ℤ
default_min x n = if given x && not (given n) then pos 0 else n

-- why lmdd exits, and the division by 0
pub data Refusal : Type 0 where
  bad_argument : Refusal
  no_maximum : Refusal
  minimum_above_maximum : Refusal
  too_many_bufs : Refusal
  unaligned : Refusal
  too_small : Refusal
  no_memory : Refusal
  divides_by_zero : Refusal

pub data Configured : Type 0 where
  accepted : Settings → Configured
  refused : Refusal → Configured

abbrev pub nonzero : ℤ → Bool
nonzero (pos n) = not (n == 0)
nonzero (negsuc n) = true

-- `(min && !max)`
abbrev pub lacks_max : (max min : ℤ) → Bool
lacks_max x n = nonzero n && not (nonzero x)

-- the block size, once it is not negative
abbrev pub block : Settings → ℕ
block s = pos_part s.bsize

-- `count = size / Bsize`, and the size of the range of random accesses
unfoldable pub derive : Settings → Settings
derive s = record s {
  count = if given_u64 s.size then s.size / block s else s.count;
  size = if given_u64 s.rand then align_up (sub_u64 s.rand (block s)) (block s) else s.size;
}

-- the checks from the block size on; `memory` says whether `valloc` gives the buffers
unfoldable pub check_block : (memory : Bool) → Settings → Configured
check_block memory s =
    if (given s.inpat || given s.outpat) && not (block s % 4 == 0)
    then refused unaligned
    else if block s / 4 == 0
    then refused too_small
    else if memory
    then accepted s
    else refused no_memory

unfoldable pub check_settings : (memory : Bool) → Settings → Configured
unfolding derive check_block
check_settings memory s =
    if lacks_max s.rtmax s.rtmin || lacks_max s.wtmax s.wtmin
    then refused no_maximum
    else if ltb_ℤ s.rtmax s.rtmin || ltb_ℤ s.wtmax s.wtmin
    then refused minimum_above_maximum
    else if ltb_ℤ (pos 10) s.nbufs
    then refused too_many_bufs
    else if given_u64 s.size && (block s == 0)
    then refused divides_by_zero
    else check_block memory (derive s)

abbrev pub all_pass : List (List ℕ) → Bool
all_pass [] = true
all_pass (arg ∷ args) = chkarg cmds arg && all_pass args

module _ (address : ℕ → ℕ) (av : List (List ℕ)) where
  abbrev u64 : List ℕ → ℕ
  u64 s = getarg address s av

  abbrev int : List ℕ → ℤ
  int s = to_int (u64 s)

  -- What the calls of `getarg` give, with the corrections that follow them. The count that "move="
  -- asks for and the size of the random accesses depend on checks: `derive` makes them.
  unfoldable pub read_settings : Settings
  read_settings =
      let bsize = int (codes "bs=") in
      let rand = u64 (codes "rand=") in
      let last = u64 (codes "end=") in
      let rtmax = clamp_max (int (codes "rtmax=")) in
      let wtmax = clamp_max (int (codes "wtmax=")) in
      let pad_in = int (codes "padin=") in
      let nbufs = int (codes "bufs=") in
      record {
        mismatch = int (codes "mismatch=");
        inpat = int (codes "ipat=");
        outpat = int (codes "opat=");
        bsize = if ltb_ℤ bsize (pos 0) then pos 8192 else bsize;
        slp = int (codes "usleep=");
        fork = int (codes "fork=");
        fsync = int (codes "fsync=");
        sync = int (codes "sync=");
        rand = rand;
        first = u64 (codes "start=");
        last = if given_u64 last && given_u64 rand && ltb rand last then rand else last;
        time = int (codes "time=");
        srand = u64 (codes "srand=");
        poff = given_u64 (u64 (codes "poff="));
        print = int (codes "print=");
        nbufs = if given nbufs then nbufs else pos 1;
        realtime = int (codes "realtime=");
        rtmax = rtmax;
        rtmin = default_min rtmax (int (codes "rtmin="));
        wtmax = wtmax;
        wtmin = default_min wtmax (int (codes "wtmin="));
        timeopen = int (codes "timeopen=");
        pad_in = if given pad_in then pad_in else pos 0;
        touch = given_u64 (u64 (codes "touch="));
        hash = given_u64 (u64 (codes "hash="));
        label = u64 (codes "label=");
        count = u64 (codes "count=");
        size = u64 (codes "move=");
        flush = int (codes "flush=");
        skip = u64 (codes "skip=");
        norepeat = given_u64 (u64 (codes "norepeat="));
      }

  unfoldable pub configure : (memory : Bool) → Configured
  unfolding check_settings read_settings
  configure memory =
      if all_pass av then check_settings memory read_settings else refused bad_argument
