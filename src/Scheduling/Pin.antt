-- ===== src/Scheduling/Pin.antt =====
-- The CPU that `sched_pin` of lmbench3/src/lib_sched.c chooses.
use mathlib.Core.Path.{subst}
use native.Mathlib.Nat.{mod-lt, mod-eq_of_lt}
use repo_support_tools.Base.{
  ℕ, zero, suc, ◌+◌, ◌-◌, ◌*◌, ◌%◌, ◌≤◌, ◌<◌, ◌≡◌, true, false, Option, none, some, ◌==◌, List,
  length, if◌then◌else◌, leb, leb→le, Bool-cases, inl, inr, arith, refl, ◌∙◌, ap,
}
use repo_support_tools.Scheduling.{allowed, count_cpus, choose, mask_of, pin_counted, sched_pin}

module _ (bits : ℕ) (cpumask : List ℕ) where
  -- the CPUs among `k` from `i` on that the process may run on
  abbrev pub cpus : (k i : ℕ) → ℕ
  cpus zero i = 0
  cpus (suc k) i = (if allowed bits cpumask i then 1 else 0) + cpus k (i + 1)

  count_cpus-cpus :
      (k i n : ℕ) → 0 < bits → bits ≤ 32 → count_cpus bits cpumask k i n ≡ some (n + cpus k i)
  unfolding count_cpus
  count_cpus-cpus zero i n some_bits short = let plain : n ≡ n + 0 = omega arith in ap some plain
  count_cpus-cpus (suc k) i n some_bits short =
      let defined : leb 32 (i % bits) ≡ false = (let h = mod-lt i some_bits in ground arith) in
      elim (Bool-cases (allowed bits cpumask i)) [
        | inl e ↦
            let sum : n + 1 + cpus k (i + 1) ≡ n + (1 + cpus k (i + 1)) = omega arith in
            rw (defined, e) (count_cpus-cpus k (i + 1) (n + 1) some_bits short ∙ ap some sum)
        | inr e ↦
            let sum : n + cpus k (i + 1) ≡ n + (0 + cpus k (i + 1)) = omega arith in
            rw (defined, e) (count_cpus-cpus k (i + 1) n some_bits short ∙ ap some sum)
      ]

  -- in words of more than 32 bits the loop that counts shifts by 32
  undefined_shift :
      (k i n : ℕ) → 32 < bits → i ≤ 32 → 32 < i + k → count_cpus bits cpumask k i n ≡ none
  unfolding count_cpus
  undefined_shift zero i n wide h room = absurd (omega arith)
  undefined_shift (suc k) i n wide h room =
      let same : i % bits ≡ i = mod-eq_of_lt (omega arith) in
      elim (Bool-cases (leb 32 i)) [
        | inl e ↦ rw (same, e) refl
        | inr e ↦ rw (same, e) (undefined_shift k (i + 1) _ wide (ground arith) (omega arith))
      ]

  -- In words of more than 32 bits, as those of a 64-bit system, `sched_pin` is not defined.
  pub sched_pin-undefined :
      (cpu : ℕ) → 32 < bits → 32 < length cpumask * bits → sched_pin bits cpumask cpu ≡ none
  unfolding sched_pin pin_counted
  sched_pin-undefined cpu wide room =
      ap (λ (o : Option ℕ). pin_counted bits cpumask o cpu)
        (undefined_shift (length cpumask * bits) 0 0 wide (omega arith) (omega arith))

  -- `i + t` is an allowed CPU below `i + k`, with `m` allowed CPUs from `i` up to it
  record IsChosen (i k m t : ℕ) : Type 0 where
    pub below : t < k
    pub may_run : allowed bits cpumask (i + t) ≡ true
    pub rank : cpus t i ≡ m

  abbrev Chosen : (k i j cpu : ℕ) → Type 0
  Chosen k i j cpu =
      (t : ℕ) × (choose bits cpumask k i j cpu ≡ some (i + t)) × IsChosen i k (cpu - j) t

  skip-Chosen :
      (k i j j' cpu : ℕ)
      → choose bits cpumask (suc k) i j cpu ≡ choose bits cpumask k (i + 1) j' cpu
      → (if allowed bits cpumask i then 1 else 0) + (cpu - j') ≡ cpu - j
      → Chosen k (i + 1) j' cpu
      → Chosen (suc k) i j cpu
  skip-Chosen k i j j' cpu step counted (t, chosen, is) =
      let shifted : i + 1 + t ≡ i + suc t = omega arith in
      (
        suc t,
        step ∙ chosen ∙ ap some shifted,
        record {
          below = omega (arith, is.below);
          may_run = subst (λ x. allowed bits cpumask x ≡ true) shifted is.may_run;
          rank = ap (λ n. (if allowed bits cpumask i then 1 else 0) + n) is.rank ∙ counted;
        },
      )

  choose-IsChosen : (k i j cpu : ℕ) → j ≤ cpu → cpu < j + cpus k i → Chosen k i j cpu
  unfolding choose
  choose-IsChosen zero i j cpu h room = absurd (omega arith)
  choose-IsChosen (suc k) i j cpu h room = elim (Bool-cases (allowed bits cpumask i)) [
    | inr e ↦
        let room' = rw e at room in
        skip-Chosen k i j j cpu (rw e refl) (rw e (omega arith))
          (choose-IsChosen k (i + 1) j cpu h (omega arith))
    | inl e ↦
        let room' = rw e at room in
        elim (Bool-cases (leb cpu j)) [
          | inl now ↦
              let here : i ≡ i + 0 = omega arith in
              let reached = leb→le cpu j now in
              (
                0,
                rw (e, now) (ap some here),
                record {
                  below = omega arith;
                  may_run = subst (λ x. allowed bits cpumask x ≡ true) here e;
                  rank = omega arith;
                },
              )
          | inr later ↦
              let more : j < cpu = ground arith in
              skip-Chosen k i j (j + 1) cpu (rw (e, later) refl) (rw e (omega arith))
                (choose-IsChosen k (i + 1) (j + 1) cpu (omega arith) (omega arith))
        ]
  ]

  -- With words of at most 32 bits, whose shifts are defined, and if the process may run on any CPU,
  -- the mask has just one bit, that of an allowed CPU: the one with `cpu` modulo their number allowed
  -- CPUs below it.
  pub sched_pin-mask :
      (cpu : ℕ)
      → 0 < bits
      → bits ≤ 32
      → 0 < cpus (length cpumask * bits) 0
      → (i : ℕ) × (sched_pin bits cpumask cpu ≡ some (mask_of bits cpumask (some i)))
        × (i < length cpumask * bits)
        × (allowed bits cpumask i ≡ true)
        × (cpus i 0 ≡ cpu % cpus (length cpumask * bits) 0)
  unfolding sched_pin pin_counted
  sched_pin-mask cpu some_bits short some_cpu =
      let all = length cpumask * bits in
      let n = cpus all 0 in
      let sum : 0 + n ≡ n = omega arith in
      let counted : count_cpus bits cpumask all 0 0 ≡ some n =
        count_cpus-cpus all 0 0 some_bits short ∙ ap some sum in
      let present : (n == 0) ≡ false = ground arith in
      let (t, chosen, is) =
        choose-IsChosen all 0 0 (cpu % n) (omega arith) (omega (arith, mod-lt cpu some_cpu)) in
      let plain : 0 + t ≡ t = omega arith in
      (
        t,
        ap (λ (o : Option ℕ). pin_counted bits cpumask o cpu) counted
            ∙ rw (present) (ap (λ o. some (mask_of bits cpumask o)) (chosen ∙ ap some plain)),
        is.below,
        subst (λ x. allowed bits cpumask x ≡ true) plain is.may_run,
        is.rank ∙ omega arith,
      )
