-- ===== src/Harness/Control/Followed.antt =====
-- `benchmp_parent` of lmbench3/src/lib_timing.c follows the protocol.
use mathlib.Core.List.{append_assoc}
use mathlib.Core.Path.{subst}
use repo_support_tools.Base.{
  ℕ, zero, suc, ◌+◌, ◌<◌, ◌≡◌, Bool, some, List, [], ◌∷◌, ◌++◌, arith, refl, ◌∙◌, ap, ltb,
  Bool-cases, inl, inr,
}
use repo_support_tools.Doubles.{Doubles}
use repo_support_tools.Timing.Clock.{Clock}
use repo_support_tools.Timing.Results.{Value, Results, insertinit, sizeof_result}
use repo_support_tools.Harness.Control.{
  Reply, Move, sends_start, sends_exit, kills, closes, Status, complete, fails, waits, lacks_memory,
  receive_all, Stage, kill_from, delay, ask_children, run_children, gather_results, finish,
  benchmp_parent,
}
use repo_support_tools.Harness.Control.Protocol.{
  Point, readying, reporting, released, killing, finished, aborted, advance, follows,
  follows-append, follows_step, start_step, exit_step, abort_step, kill_step, IsEnd,
  readying-IsWaiting, reporting-IsWaiting, Meets, Reaches, continue-Reaches,
}

module _ (f : Doubles) (to_results : List ℕ → Results) (parallel repetitions : ℕ) where
  abbrev size : ℕ
  size = sizeof_result repetitions

  ask_children-Reaches :
      (left : ℕ) (es : List Reply) (pipe : List ℕ) (merged : Results)
      → Reaches parallel size
          (reporting left 0)
          (ask_children f to_results parallel repetitions left es pipe merged)
          (reporting 0 0)
  unfolding ask_children follows advance
  ask_children-Reaches zero es pipe merged = (reporting 0 0, refl, refl)
  ask_children-Reaches (suc left) es pipe merged =
      continue-Reaches parallel size (reporting left) (reporting-IsWaiting parallel size left) size
        es pipe merged _ (reporting 0 0) (ask_children-Reaches left _ _ _)

  run_children-Reaches :
      (es : List Reply) (pipe : List ℕ) (merged : Results)
      → Reaches parallel size
          (readying 0)
          (run_children f to_results parallel repetitions es pipe merged)
          (reporting 0 0)
  unfolding run_children follows advance
  run_children-Reaches es pipe merged =
      let next =
        continue-Reaches parallel size (reporting parallel)
          (reporting-IsWaiting parallel size parallel) parallel es pipe merged _ (reporting 0 0)
          (ask_children-Reaches parallel _ _ (insertinit merged)) in
      (
        next.0,
        follows_step parallel size (sends_start parallel) _ (readying 0)
              (reporting parallel parallel) (start_step parallel size)
            ∙ next.1,
        next.2,
      )

  delay-follows :
      (warmup : ℕ) (xs : List Move)
      → follows parallel size (delay warmup ++ xs) (some (readying 0))
        ≡ follows parallel size xs (some (readying 0))
  unfolding follows advance
  delay-follows warmup xs = elim (Bool-cases (ltb 0 warmup)) [
    | inl e ↦ rw e refl
    | inr e ↦ rw e refl
  ]

  gather_results-Reaches :
      (warmup : ℕ) (es : List Reply) (pipe : List ℕ) (merged : Results)
      → Reaches parallel size
          (readying parallel)
          (gather_results f to_results parallel repetitions warmup es pipe merged)
          (reporting 0 0)
  unfolding gather_results
  gather_results-Reaches warmup es pipe merged =
      let ready = receive_all parallel es pipe in
      let rest = run_children f to_results parallel repetitions ready.answers ready.pipe merged in
      let r = run_children-Reaches ready.answers ready.pipe merged in
      continue-Reaches parallel size readying (readying-IsWaiting parallel size) parallel es pipe
        merged _ (reporting 0 0) (r.0, delay-follows warmup rest.actions ∙ r.1, r.2)

  kill_from-follows :
      (i left : ℕ)
      → follows parallel size (kill_from i left) (some (killing i)) ≡ some (killing (i + left))
  unfolding kill_from follows advance
  kill_from-follows i zero = ap (λ j. some (killing j)) (omega arith)
  kill_from-follows i (suc left) =
      follows_step parallel size (kills i) (kill_from (suc i) left) (killing i) (killing (suc i))
        (kill_step parallel size i)
      ∙ kill_from-follows (suc i) left
      ∙ ap (λ j. some (killing j)) (omega arith)

  kill_all-follows :
      (n : ℕ) (q : Point)
      → 0 < n
      → advance parallel size q (kills 0) ≡ some (killing 1)
      → follows parallel size (kill_from 0 n) (some q) ≡ some (killing n)
  unfolding kill_from
  kill_all-follows zero q pos e = absurd (omega arith)
  kill_all-follows (suc n) q pos e =
      follows_step parallel size (kills 0) (kill_from 1 n) q (killing 1) e
      ∙ kill_from-follows 1 n
      ∙ ap (λ j. some (killing j)) (omega arith)

  killed-follows :
      (q : Point)
      → 0 < parallel
      → advance parallel size q (kills 0) ≡ some (killing 1)
      → follows parallel size (kill_from 0 parallel ++ closes ∷ []) (some q) ≡ some aborted
  unfolding follows
  killed-follows q pos e =
      follows-append parallel size (kill_from 0 parallel) (closes ∷ []) (some q)
      ∙ ap (follows parallel size (closes ∷ [])) (kill_all-follows parallel q pos e)
      ∙ follows_step parallel size closes [] (killing parallel) aborted (abort_step parallel size)

  released-follows :
      follows parallel size (sends_exit parallel ∷ closes ∷ []) (some (reporting 0 0))
      ≡ some finished
  unfolding follows advance
  released-follows =
      follows_step parallel size (sends_exit parallel) (closes ∷ []) (reporting 0 0) released
        (exit_step parallel size)

  finish-IsEnd :
      (s : Stage) (p : Point) (clock : Clock)
      → 0 < parallel
      → Reaches parallel size p s (reporting 0 0)
      → (q : Point) × (follows parallel size
            (finish f to_results parallel repetitions s clock).actions
            (some p)
          ≡ some q)
        × IsEnd parallel size (finish f to_results parallel repetitions s clock).status q
  unfolding finish
  finish-IsEnd s p clock pos r = by s.status refl
    where
      by :
          (status : Status)
          → s.status ≡ status
          → (q : Point) × (follows parallel size
                (finish f to_results parallel repetitions s clock).actions
                (some p)
              ≡ some q)
            × IsEnd parallel size (finish f to_results parallel repetitions s clock).status q
      by complete e =
          let here : r.0 ≡ reporting 0 0 =
            subst (λ t. Meets parallel size t (reporting 0 0) r.0) e r.2 in
          rw (e) (
            finished,
            follows-append parallel size s.actions (sends_exit parallel ∷ closes ∷ []) (some p)
                ∙ ap (follows parallel size (sends_exit parallel ∷ closes ∷ []))
                    (r.1 ∙ ap (λ q. some q) here)
                ∙ released-follows,
            refl,
          )
      by fails e =
          let here = subst (λ t. Meets parallel size t (reporting 0 0) r.0) e r.2 in
          rw (e) (
            aborted,
            ap (λ l. follows parallel size l (some p))
                  (append_assoc s.actions (kill_from 0 parallel) (closes ∷ []))
                ∙ follows-append parallel size s.actions (kill_from 0 parallel ++ closes ∷ [])
                    (some p)
                ∙ ap (follows parallel size (kill_from 0 parallel ++ closes ∷ [])) r.1
                ∙ killed-follows r.0 pos here,
            refl,
          )
      by waits e = rw (e) (r.0, r.1, tt)
      by lacks_memory e = absurd (subst (λ t. Meets parallel size t (reporting 0 0) r.0) e r.2)

  -- `benchmp_parent` with at least one child follows the protocol, whatever signals, replies and
  -- allocations come: it starts the children only after their 'ready' bytes, asks a child only after the bytes
  -- before are read, and lets the children exit only after the last report. A complete run ends with
  -- the 'exit' signals and the pipes closed, a run that fails by a signal, a `read` or a pipe in
  -- error with every child killed and the pipes closed. Where a `malloc` fails before the first byte
  -- is read, it does nothing: no child is started or killed, and no pipe is closed.
  pub benchmp_parent-IsEnd :
      (signalled allocated : Bool) (warmup : ℕ) (es : List Reply) (pipe : List ℕ) (v : List Value)
      (clock : Clock)
      → 0 < parallel
      → (q : Point) × (follows parallel size
            (benchmp_parent f to_results parallel repetitions signalled allocated warmup es pipe v
              clock).actions
            (some (readying parallel))
          ≡ some q)
        × IsEnd parallel size
            (benchmp_parent f to_results parallel repetitions signalled allocated warmup es pipe v
              clock).status
            q
  unfolding benchmp_parent
  benchmp_parent-IsEnd signalled allocated warmup es pipe v clock pos =
      elim (Bool-cases signalled) [
        | inl e ↦ rw (e) (
            finish-IsEnd
              (record {
                status = fails;
                answers = es;
                pipe = pipe;
                actions = [];
                merged = record { count = 0; v = v };
              })
              (readying parallel) clock pos
              (unfold follows advance in (readying parallel, refl, refl)))
        | inr e ↦ elim (Bool-cases allocated) [
          | inl a ↦
              rw (e, a)
                (finish-IsEnd
                  (gather_results f to_results parallel repetitions warmup es pipe
                    (record { count = 0; v = v }))
                  (readying parallel) clock pos
                  (gather_results-Reaches warmup es pipe (record { count = 0; v = v })))
          | inr a ↦ rw (e, a) (unfold follows in (readying parallel, refl, refl))
        ]
      ]
