-- ===== src/Timing/Loop/Report.antt =====
-- What `BENCH_INNER` of lmbench3/src/bench.h reports.
use repo_support_tools.Base.{
  ℕ, zero, suc, ◌+◌, ◌≤◌, ◌<◌, ◌≡◌, ◌⊎◌, Bool, true, false, some, if◌then◌else◌, Bool-cases, dec_lt,
  inl, inr, arith, refl, sym, ap,
}
use repo_support_tools.Doubles.{Doubles}
use repo_support_tools.Timing.Results.{Value}
use repo_support_tools.Timing.Loop.{too_short, gives_up, adjust, bench_inner}
use mathlib.Core.Option.{some-injective}
use mathlib.Core.Path.{subst}

then_of : {A : Type 0} {z : A} (b : Bool) (x y : A) → b ≡ true → (if b then x else y) ≡ z → x ≡ z
then_of true x y e h = h
then_of false x y e h = absurd (cc)

else_of : {A : Type 0} {z : A} (b : Bool) (x y : A) → b ≡ false → (if b then x else y) ≡ z → y ≡ z
else_of true x y e h = absurd (cc)
else_of false x y e h = h

module _ (f : Doubles) (elapsed : ℕ → ℕ → ℕ) (enough : ℕ) where
  -- `v` reports round `k` of `n` iterations, which was long enough
  pub record IsReport (v : Value) (k n : ℕ) : Type 0 where
    pub time : v.u ≡ f.to_u64 (f.of_ℕ (elapsed k n))
    pub enough_time : too_short f enough (f.of_ℕ (elapsed k n)) ≡ false
    pub count : v.n ≡ adjust f enough n (f.of_ℕ (elapsed k n))

  -- the loop gave up on `v.n` iterations
  abbrev pub IsHopeless : Value → Type 0
  IsHopeless v =
      (k : ℕ) × (v.u ≡ f.to_u64 (f.of_ℕ 0))
      × (gives_up f enough v.n (f.of_ℕ (elapsed k v.n)) ≡ true)

  abbrev pub IsExplained : Value → Type 0
  IsExplained v = ((k : ℕ) × (n : ℕ) × IsReport v k n) ⊎ IsHopeless v

  reported :
      (k n : ℕ) (v : Value)
      → too_short f enough (f.of_ℕ (elapsed k n)) ≡ false
      → record { u = f.to_u64 (f.of_ℕ (elapsed k n)); n = adjust f enough n (f.of_ℕ (elapsed k n)) }
        ≡ v
      → IsExplained v
  reported k n v e h = inl (
    k,
    n,
    record {
      time = ap (λ (w : Value). w.u) (sym h);
      enough_time = e;
      count = ap (λ (w : Value). w.n) (sym h);
    },
  )

  hopeless :
      (k n : ℕ) (v : Value)
      → gives_up f enough n (f.of_ℕ (elapsed k n)) ≡ true
      → record { u = f.to_u64 (f.of_ℕ 0); n = n } ≡ v
      → IsExplained v
  hopeless k n v e h = subst IsExplained h (inr (k, refl, e))

  -- from the round after round `k` of `n` iterations on
  explain :
      (fuel k n : ℕ) (v : Value)
      → bench_inner f elapsed enough fuel
          (k + 1)
          (adjust f enough n (f.of_ℕ (elapsed k n)))
          (f.of_ℕ (elapsed k n))
        ≡ some v
      → IsExplained v
  unfolding bench_inner
  explain zero k n v h = elim (Bool-cases (too_short f enough (f.of_ℕ (elapsed k n)))) [
    | inl e ↦ absurd (let never = then_of _ _ _ e h in cc)
    | inr e ↦ reported k n v e (some-injective _ _ (else_of _ _ _ e h))
  ]
  explain (suc fuel) k n v h =
      let m = adjust f enough n (f.of_ℕ (elapsed k n)) in
      elim (Bool-cases (too_short f enough (f.of_ℕ (elapsed k n)))) [
        | inl e ↦ elim (Bool-cases (gives_up f enough m (f.of_ℕ (elapsed (k + 1) m)))) [
          | inl stuck ↦
              hopeless (k + 1) m v stuck
                (some-injective _ _ (then_of _ _ _ stuck (then_of _ _ _ e h)))
          | inr going ↦ explain fuel (k + 1) m v (else_of _ _ _ going (then_of _ _ _ e h))
        ]
        | inr e ↦ reported k n v e (some-injective _ _ (else_of _ _ _ e h))
      ]

  bench_inner-IsExplained :
      (fuel iterations : ℕ) (v : Value)
      → too_short f enough (f.of_ℕ 0) ≡ true
      → bench_inner f elapsed enough fuel 0 iterations (f.of_ℕ 0) ≡ some v
      → IsExplained v
  unfolding bench_inner
  bench_inner-IsExplained zero n v short h = absurd (let never = then_of _ _ _ short h in cc)
  bench_inner-IsExplained (suc fuel) n v short h =
      elim (Bool-cases (gives_up f enough n (f.of_ℕ (elapsed 0 n)))) [
        | inl stuck ↦
            hopeless 0 n v stuck (some-injective _ _ (then_of _ _ _ stuck (then_of _ _ _ short h)))
        | inr going ↦ explain fuel 0 n v (else_of _ _ _ going (then_of _ _ _ short h))
      ]

  ended :
      (fuel k n : ℕ) (result : f.D)
      → too_short f enough result ≡ false
      → bench_inner f elapsed enough fuel k n result ≡ some (record { u = f.to_u64 result; n = n })
  unfolding bench_inner
  ended zero k n result e = rw e refl
  ended (suc fuel) k n result e = rw e refl

  ends :
      (fuel k n last : ℕ) (result : f.D)
      → ((m : ℕ) → too_short f enough (f.of_ℕ (elapsed last m)) ≡ false)
      → k ≤ last
      → last < k + fuel
      → (v : Value) × (bench_inner f elapsed enough fuel k n result ≡ some v)
  unfolding bench_inner
  ends zero k n last result long h room = absurd (omega arith)
  ends (suc fuel) k n last result long h room = elim (Bool-cases (too_short f enough result)) [
    | inr e ↦ rw e (_, refl)
    | inl e ↦ elim (Bool-cases (gives_up f enough n (f.of_ℕ (elapsed k n)))) [
      | inl stuck ↦ rw (e, stuck) (_, refl)
      | inr going ↦
          rw (e, going)
            (elim (dec_lt k last) [
              | yes before ↦ ends fuel (k + 1) _ last _ long (omega arith) (omega arith)
              | no at_last ↦
                  let same : k ≡ last = omega arith in
                  (_, ended fuel (k + 1) _ _ (rw same (long n)))
            ])
    ]
  ]

  -- If some round within the fuel is long enough, whatever its iterations, the loop ends by then. It
  -- either has given up at more than 2^27 iterations, with the time 0, or reports the time of a round
  -- that was long enough; the count is then what `adjust` makes of the iterations of that round.
  pub bench_inner-total :
      (fuel iterations last : ℕ)
      → too_short f enough (f.of_ℕ 0) ≡ true
      → ((m : ℕ) → too_short f enough (f.of_ℕ (elapsed last m)) ≡ false)
      → last < fuel
      → (v : Value) × (bench_inner f elapsed enough fuel 0 iterations (f.of_ℕ 0) ≡ some v)
        × IsExplained v
  bench_inner-total fuel iterations last short long room =
      let end = ends fuel 0 iterations last (f.of_ℕ 0) long (omega arith) (omega arith) in
      (end.0, end.1, bench_inner-IsExplained fuel iterations end.0 short end.1)
