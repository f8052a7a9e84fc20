-- ===== src/Examples/Scheduling.antt =====
-- lmbench3/src/lib_sched.c on a host of 8 processors.
use repo_support_tools.Base.{
  ℕ, ◌*◌, ◌%◌, ◌<◌, ◌≡◌, true, some, none, List, [], ◌∷◌, length, refl, arith,
}
use repo_support_tools.Scheduling.{
  custom_values, skip_other, take_digits, drop_digits, allowed, mask_of, count_cpus, choose,
  pin_counted, sched_pin,
}
use repo_support_tools.Scheduling.Pin.{cpus, sched_pin-mask}

-- " 12 3"
abbrev two_cpus : List ℕ
two_cpus = 32 ∷ 49 ∷ 50 ∷ 32 ∷ 51 ∷ []

-- the processors 1, 2 and 4
abbrev three_cpus : List ℕ
three_cpus = 22 ∷ []

abbrev third : ℕ
third = 2

abbrev second : ℕ
second = 1

-- A list of processors that ends in a digit is not read within its bounds; with a blank it is.
custom_bounds :
    (custom_values 6 two_cpus ≡ none)
    × (custom_values 7 (32 ∷ 49 ∷ 50 ∷ 32 ∷ 51 ∷ 32 ∷ []) ≡ some (12 ∷ 3 ∷ []))
unfolding custom_values skip_other take_digits drop_digits
custom_bounds = (refl, refl)

sched_pin-mask_example :
    (i : ℕ) × (sched_pin 8 three_cpus 4 ≡ some (mask_of 8 three_cpus (some i)))
    × (i < length three_cpus * 8)
    × (allowed 8 three_cpus i ≡ true)
    × (cpus 8 three_cpus i 0 ≡ 4 % cpus 8 three_cpus (length three_cpus * 8) 0)
sched_pin-mask_example = sched_pin-mask 8 three_cpus 4 (omega arith) (omega arith) (omega arith)

-- Processor 4 of three is the second one that is allowed.
pinned : sched_pin 8 three_cpus 4 ≡ some (4 ∷ [])
unfolding sched_pin count_cpus choose pin_counted
pinned = refl

-- With words of 64 bits the loop over a mask shifts an `int` too far.
wide_words : sched_pin 64 three_cpus 4 ≡ none
unfolding sched_pin count_cpus choose pin_counted
wide_words = refl
