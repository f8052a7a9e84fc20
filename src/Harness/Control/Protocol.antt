-- ===== src/Harness/Control/Protocol.antt =====
-- The protocol that `benchmp_parent` of lmbench3/src/lib_timing.c follows with its children, as a
-- machine over its actions: which action may come next, and how many bytes it waits for.
use mathlib.Core.Path.{subst}
use repo_support_tools.Base.{
  ℕ, zero, suc, ◌-◌, ◌≤◌, ◌≡◌, min, Bool, true, Option, none, some, List, [], ◌∷◌, ◌++◌, length,
  take, drop, arith, refl, ◌∙◌, ap, length-take, if◌then◌else◌, leb, ◌==◌, ◌&&◌,
}
use repo_support_tools.Timing.Results.{Results}
use repo_support_tools.Harness.Control.{
  Reply, interrupted, quiet, read_fails, reads, Move, receives, delays, sends_start, asks_results,
  sends_exit, kills, closes, Status, complete, fails, waits, lacks_memory, Collected, receive_all,
  Stage, continue,
}

pub data Point : Type 0 where
  -- so many 'ready' bytes are to come
  readying : ℕ → Point
  -- so many children are still to be asked, and so many bytes of the answers before are to come
  reporting : ℕ → ℕ → Point
  -- the children may exit
  released : Point
  -- so many children are killed
  killing : ℕ → Point
  -- the pipes are closed, after the 'exit' signals or after every child is killed
  finished : Point
  aborted : Point

abbrev pub when : Bool → Point → Option Point
when b p = if b then some p else none

module _ (parallel size : ℕ) where
  unfoldable pub advance : Point → Move → Option Point
  advance (readying n) (receives k) = when (leb k n) (readying (n - k))
  advance (readying n) (delays t) = when (n == 0) (readying n)
  advance (readying n) (sends_start m) =
      when ((n == 0) && (m == parallel)) (reporting parallel parallel)
  advance (readying n) asks_results = none
  advance (readying n) (sends_exit m) = none
  advance (readying n) (kills i) = when (i == 0) (killing 1)
  advance (readying n) closes = none
  advance (reporting c n) (receives k) = when (leb k n) (reporting c (n - k))
  advance (reporting zero n) asks_results = none
  advance (reporting (suc c) n) asks_results = when (n == 0) (reporting c size)
  advance (reporting c n) (delays t) = none
  advance (reporting c n) (sends_start m) = none
  advance (reporting c n) (sends_exit m) = when ((c == 0) && (n == 0) && (m == parallel)) released
  advance (reporting c n) (kills i) = when (i == 0) (killing 1)
  advance (reporting c n) closes = none
  advance (killing j) (kills i) = when (i == j) (killing (suc j))
  advance (killing j) closes = when (j == parallel) aborted
  advance (killing j) (receives k) = none
  advance (killing j) (delays t) = none
  advance (killing j) (sends_start m) = none
  advance (killing j) asks_results = none
  advance (killing j) (sends_exit m) = none
  advance released closes = some finished
  advance released (receives k) = none
  advance released (delays t) = none
  advance released (sends_start m) = none
  advance released asks_results = none
  advance released (sends_exit m) = none
  advance released (kills i) = none
  advance finished a = none
  advance aborted a = none

  -- the point that the actions lead to, none where one is not allowed
  unfoldable pub follows : List Move → Option Point → Option Point
  follows [] p = p
  follows (a ∷ as') none = none
  follows (a ∷ as') (some p) = follows as' (advance p a)

  pub follows-append :
      (xs ys : List Move) (p : Option Point) → follows (xs ++ ys) p ≡ follows ys (follows xs p)
  unfolding follows
  follows-append [] ys p = refl
  follows-append (x ∷ xs) [] none = refl
  follows-append (x ∷ xs) (y ∷ ys) none = refl
  follows-append (x ∷ xs) ys (some p) = follows-append xs ys (advance p x)

  -- an action that is allowed, and the others
  pub follows_step :
      (a : Move) (xs : List Move) (p q : Point)
      → advance p a ≡ some q
      → follows (a ∷ xs) (some p) ≡ follows xs (some q)
  unfolding follows
  follows_step a xs p q e = ap (follows xs) e

  pub start_step : advance (readying 0) (sends_start parallel) ≡ some (reporting parallel parallel)
  unfolding advance
  start_step = let same : (parallel == parallel) ≡ true = ground arith in rw (same) refl

  pub exit_step : advance (reporting 0 0) (sends_exit parallel) ≡ some released
  unfolding advance
  exit_step = let same : (parallel == parallel) ≡ true = ground arith in rw (same) refl

  pub abort_step : advance (killing parallel) closes ≡ some aborted
  unfolding advance
  abort_step = let same : (parallel == parallel) ≡ true = ground arith in rw (same) refl

  pub kill_step : (i : ℕ) → advance (killing i) (kills i) ≡ some (killing (suc i))
  unfolding advance
  kill_step i = let same : (i == i) ≡ true = ground arith in rw (same) refl

  -- The actions lead from `p` to the end for the status of the run.
  abbrev pub IsEnd : Status → Point → Type 0
  IsEnd complete p = p ≡ finished
  IsEnd fails p = p ≡ aborted
  IsEnd waits p = Unit
  IsEnd lacks_memory p = p ≡ readying parallel

  -- a point at which the parent still waits for `n` bytes
  pub record IsWaiting (at : ℕ → Point) : Type 0 where
    receive : (n k : ℕ) → k ≤ n → advance (at n) (receives k) ≡ some (at (n - k))
    abort : (n : ℕ) → advance (at n) (kills 0) ≡ some (killing 1)

  pub readying-IsWaiting : IsWaiting readying
  unfolding advance
  readying-IsWaiting = record {
    receive = λ n k h. let e : leb k n ≡ true = ground arith in rw (e) refl;
    abort = λ n. refl;
  }

  pub reporting-IsWaiting : (c : ℕ) → IsWaiting (reporting c)
  unfolding advance
  reporting-IsWaiting zero = record {
    receive = λ n k h. let e : leb k n ≡ true = ground arith in rw (e) refl;
    abort = λ n. refl;
  }
  reporting-IsWaiting (suc c) = record {
    receive = λ n k h. let e : leb k n ≡ true = ground arith in rw (e) refl;
    abort = λ n. refl;
  }

  -- the bytes that a loop leaves to come: none where it is complete
  abbrev Leaves : Status → ℕ → Type 0
  Leaves complete m = m ≡ 0
  Leaves fails m = Unit
  Leaves waits m = Unit
  Leaves lacks_memory m = ⊥

  receive_all-Leaves :
      (at : ℕ → Point)
      → IsWaiting at
      → (n : ℕ) (es : List Reply) (pipe : List ℕ)
      → (m : ℕ) × (follows (receive_all n es pipe).actions (some (at n)) ≡ some (at m))
        × Leaves (receive_all n es pipe).status m
  unfolding receive_all follows
  receive_all-Leaves at w zero es pipe = (0, refl, refl)
  receive_all-Leaves at w (suc n) [] pipe = (suc n, refl, tt)
  receive_all-Leaves at w (suc n) (interrupted ∷ es) pipe = (suc n, refl, tt)
  receive_all-Leaves at w (suc n) (quiet ∷ es) pipe = receive_all-Leaves at w (suc n) es pipe
  receive_all-Leaves at w (suc n) (read_fails ∷ es) pipe = (suc n, refl, tt)
  receive_all-Leaves at w (suc n) (reads k ∷ es) pipe =
      let got = take (min k (suc n)) pipe in
      let step = w.receive (suc n) (length got) (omega (arith, length-take (min k (suc n)) pipe)) in
      let rest = receive_all-Leaves at w (suc n - length got) es (drop (length got) pipe) in
      (
        rest.0,
        ap (follows (receive_all (suc n - length got) es (drop (length got) pipe)).actions) step
            ∙ rest.1,
        rest.2,
      )

  -- a part of the run that begins at `p` and ends, if it is complete, at `target`
  abbrev pub Meets : Status → (target q : Point) → Type 0
  Meets complete target q = q ≡ target
  Meets fails target q = advance q (kills 0) ≡ some (killing 1)
  Meets waits target q = Unit
  Meets lacks_memory target q = ⊥

  abbrev pub Reaches : (p : Point) → Stage → (target : Point) → Type 0
  Reaches p s target = (q : Point) × (follows s.actions (some p) ≡ some q) × Meets s.status target q

  -- the loop before it, and then the rest
  pub continue-Reaches :
      (at : ℕ → Point)
      → IsWaiting at
      → (n : ℕ) (es : List Reply) (pipe : List ℕ) (merged : Results) (rest : Stage) (target : Point)
      → Reaches (at 0) rest target
      → Reaches (at n) (continue (receive_all n es pipe) merged rest) target
  unfolding continue
  continue-Reaches at w n es pipe merged rest target r = by got.status refl
    where
      got : Collected
      got = receive_all n es pipe

      leaves : (m : ℕ) × (follows got.actions (some (at n)) ≡ some (at m)) × Leaves got.status m
      leaves = receive_all-Leaves at w n es pipe

      by :
          (status : Status) → got.status ≡ status → Reaches (at n) (continue got merged rest) target
      by complete e =
          let zeroed : leaves.0 ≡ 0 = subst (λ t. Leaves t leaves.0) e leaves.2 in
          rw (e) (
            r.0,
            follows-append got.actions rest.actions (some (at n))
                ∙ ap (follows rest.actions) (leaves.1 ∙ ap (λ m. some (at m)) zeroed)
                ∙ r.1,
            r.2,
          )
      by fails e = rw (e) (at leaves.0, leaves.1, w.abort leaves.0)
      by waits e = rw (e) (at leaves.0, leaves.1, tt)
      by lacks_memory e = absurd (subst (λ t. Leaves t leaves.0) e leaves.2)
