-- ===== src/Scheduling.antt =====
-- Which CPU a process is pinned to: lmbench3/src/lib_sched.c. A C string is the list of its codes
-- without the terminator. The branch that the comparisons of `LMBENCH_SCHED` choose is a `Policy`.
pub mod Reverse
pub mod Custom
pub mod Pin
use repo_support_tools.Base.{
  ℕ, zero, suc, ◌+◌, ◌-◌, ◌*◌, ◌/◌, ◌%◌, ◌^◌, Bool, true, false, ◌&&◌, Option, none, some, List, [],
  ◌∷◌, length, get_or, set, replicate, if◌then◌else◌, leb, ◌==◌,
}
use repo_support_tools.Base.Text.{isdigit}
use repo_support_tools.Bits.{count_bits, reverse_loop}

-- `reverse_bits(cpu)` on a host of `ncpus` processors
unfoldable pub reverse_bits : ℕ → ℕ → ℕ
reverse_bits ncpus cpu =
    let max = ncpus - 1 in let nbits = count_bits (max / 2) 1 in reverse_loop cpu nbits 0 0

-- `while (*str && !isdigit(*str)) str++;`
unfoldable pub skip_other : List ℕ → List ℕ
skip_other [] = []
skip_other (c ∷ cs) = let rest = skip_other cs in if isdigit c then c ∷ cs else rest

-- `while (*str && isdigit(*str)) str++;`: what it passes, and what is left
unfoldable pub take_digits : List ℕ → List ℕ
take_digits [] = []
take_digits (c ∷ cs) = let rest = take_digits cs in if isdigit c then c ∷ rest else []

unfoldable pub drop_digits : List ℕ → List ℕ
drop_digits [] = []
drop_digits (c ∷ cs) = let rest = drop_digits cs in if isdigit c then rest else c ∷ cs

-- `sscanf(q, "%d", ...)` on digits: the number that they write, which is to fit an `int`
abbrev pub number : ℕ → List ℕ → ℕ
number n [] = n
number n (c ∷ cs) = number (n * 10 + (c - 48)) cs

abbrev pub tail : List ℕ → List ℕ
tail [] = []
tail (c ∷ cs) = cs

-- the end of a round, given the values of the other rounds: a break where there were no digits, a
-- read past the terminator (none) where `*str++ = 0` has stepped over it
abbrev pub store_value : (digits left : List ℕ) → Option (List ℕ) → Option (List ℕ)
store_value [] left others = some []
store_value (d ∷ ds) [] others = none
store_value (d ∷ ds) (c ∷ cs) none = none
store_value (d ∷ ds) (c ∷ cs) (some vs) = some (number 0 (d ∷ ds) ∷ vs)

-- the loop of `custom` over its string, on fuel
unfoldable pub custom_values : ℕ → List ℕ → Option (List ℕ)
custom_values zero str = none
custom_values (suc fuel) str =
    let q = skip_other str in
    let left = drop_digits q in store_value (take_digits q) left (custom_values fuel (tail left))

-- `custom` after its loop, which runs in the first call only
unfoldable pub custom : List ℕ → ℕ → ℕ
custom values cpu = if length values == 0 then 0 else get_or values (cpu % length values) 0

pub data Policy : Type 0 where
  default : Policy
  single : Policy
  balanced : Policy
  balanced_spread : Policy
  unique : Policy
  unique_spread : Policy
  custom_cpus : List ℕ → Policy
  custom_unique : List ℕ → Policy

-- the argument of `sched_pin`, or none where the scheduler of the system is left alone
unfoldable pub handle_scheduler :
    (ncpus : ℕ) → Policy → (childno benchproc nbenchprocs : ℕ) → Option ℕ
handle_scheduler ncpus default c b n = none
handle_scheduler ncpus single c b n = some (0 % ncpus)
handle_scheduler ncpus balanced c b n = some (c % ncpus)
handle_scheduler ncpus balanced_spread c b n = some (reverse_bits ncpus c % ncpus)
handle_scheduler ncpus unique c b n = some ((c * (n + 1) + b) % ncpus)
handle_scheduler ncpus unique_spread c b n = some (reverse_bits ncpus (c * (n + 1) + b) % ncpus)
handle_scheduler ncpus (custom_cpus vs) c b n = some (custom vs c % ncpus)
handle_scheduler ncpus (custom_unique vs) c b n = some (custom vs (c * (n + 1) + b) % ncpus)

-- `sched_pin` on Linux. `bits` is the size of a word of the masks. The 1 of `1 << bit` is an `int`: a
-- shift by 32 or more is not defined, and the one by 31 gives the highest bit of a word of 32 bits.
module _ (bits : ℕ) (cpumask : List ℕ) where
  -- `cpumask[word] & (1 << bit)`, where `1 << bit` is a bit of a word: no other value is used, since
  -- `count_cpus` gives none for larger words
  abbrev pub allowed : ℕ → Bool
  allowed i = get_or cpumask (i / bits) 0 / 2 ^ (i % bits) % 2 == 1

  -- The loop that counts: `k` rounds from `i` on, none where a shift is not defined.
  unfoldable pub count_cpus : (k i ncpus : ℕ) → Option ℕ
  count_cpus zero i ncpus = some ncpus
  count_cpus (suc k) i ncpus =
      let rest = count_cpus k (i + 1) (if allowed i then ncpus + 1 else ncpus) in
      if leb 32 (i % bits) then none else rest

  -- The loop that chooses: the index of the bit that it sets, or none at its end. It shifts by the
  -- same numbers as the loop before, which has ended.
  unfoldable pub choose : (k i j cpu : ℕ) → Option ℕ
  choose zero i j cpu = none
  choose (suc k) i j cpu =
      let rest = choose k (i + 1) (if allowed i then j + 1 else j) cpu in
      if allowed i && leb cpu j then some i else rest

  -- `bzero(mask, ...)` and `mask[word] |= (1 << bit)`
  abbrev pub mask_of : Option ℕ → List ℕ
  mask_of none = replicate (length cpumask) 0
  mask_of (some i) = set (replicate (length cpumask) 0) (i / bits) (2 ^ (i % bits))

  -- the rest of `sched_pin`: none for a division by 0, where no CPU is counted
  unfoldable pub pin_counted : (ncpus : Option ℕ) → ℕ → Option (List ℕ)
  pin_counted none cpu = none
  pin_counted (some ncpus) cpu =
      if ncpus == 0 then none else some (mask_of (choose (length cpumask * bits) 0 0 (cpu % ncpus)))

  -- the mask that `sched_setaffinity` gets, where nothing is undefined
  unfoldable pub sched_pin : ℕ → Option (List ℕ)
  sched_pin cpu = pin_counted (count_cpus (length cpumask * bits) 0 0) cpu
