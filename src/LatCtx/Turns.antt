-- ===== src/LatCtx/Turns.antt =====
-- The turns of the processes in the ring of lat_ctx.c of lmbench3/src.
use mathlib.Core.Path.{subst}
use repo_support_tools.Base.{
  ℕ, zero, suc, ◌-◌, ◌<◌, ◌≡◌, ◌≢◌, ◌⊎◌, inl, inr, true, false, Bool-cases, none, some,
  if◌then◌else◌, ltb, ◌==◌, refl, sym, ap, ◌∙◌, arith,
}
use repo_support_tools.LatCtx.{Ring, turn_parent, turn_child, turn}
use repo_support_tools.LatCtx.Token.{
  Place, home, in_pipe, after_pipe, messages_at, IsAt, IsIn, mover, Moves, parent_sends,
  parent_receives, child_receives, child_sends,
}

module _ (procs : ℕ) where
  -- the process whose turn it is can go on, unless the iterations are over
  abbrev pub CanMove : Place → Ring → Type 0
  CanMove home s = 0 < s.left
  CanMove (in_pipe i) s = Unit
  CanMove (after_pipe i) s = Unit

  turn-Moves :
      (p : Place) (s : Ring)
      → 0 < procs
      → IsIn procs p
      → IsAt p s
      → CanMove p s
      → (t : Ring) × (turn procs (mover procs p) s ≡ some t) × Moves procs p s t
  unfolding turn
  turn-Moves home s pos inside h can = parent_sends procs s pos h can
  turn-Moves (in_pipe i) s pos inside h can = elim (Bool-cases (suc i == procs)) [
    | inl e ↦
        let last : suc i ≡ procs = ground arith in
        let r = parent_receives procs i s last h in
        (r.0, subst (λ b. turn procs (if b then 0 else suc i) s ≡ some r.0) (sym e) r.1, r.2)
    | inr e ↦
        let on : suc i < procs = ground arith in
        let active : ltb (suc i) procs ≡ true = ground arith in
        let r = child_receives procs i s on h in
        (
          r.0,
          subst (λ b. turn procs (if b then 0 else suc i) s ≡ some r.0) (sym e) (rw (active) r.1),
          r.2,
        )
  ]
  turn-Moves (after_pipe i) s pos inside h can =
      let active : ltb (suc i) procs ≡ true = ground arith in
      let r = child_sends procs i s inside h in (r.0, rw (active) r.1, r.2)

  -- every other process blocks
  child_blocks :
      (k : ℕ) (s : Ring) → s.holds (suc k) ≡ false → s.pipes k ≡ 0 → turn_child (suc k) s ≡ none
  unfolding turn_child
  child_blocks k s free empty =
      let index : suc k - 1 ≡ k = omega arith in rw (free, index, empty) refl

  parent_blocks : (s : Ring) → s.waits ≡ true → s.pipes (procs - 1) ≡ 0 → turn_parent procs s ≡ none
  unfolding turn_parent
  parent_blocks s waits empty = rw (waits, empty) refl

  other_index : (k i : ℕ) → k ≢ i → messages_at (in_pipe i) k ≡ 0
  other_index k i h = elim (Bool-cases (k == i)) [
    | inl e ↦ absurd (h (ground arith))
    | inr e ↦ rw (e) refl
  ]

  -- a child that blocks, or is not there
  absent_or_blocks :
      (k : ℕ) (s : Ring)
      → (suc k < procs → turn_child (suc k) s ≡ none)
      → turn procs (suc k) s ≡ none
  unfolding turn
  absent_or_blocks k s h = elim (Bool-cases (ltb (suc k) procs)) [
    | inl e ↦ rw (e) (h (ground arith))
    | inr e ↦ rw (e) refl
  ]

  last_pipe_moves : (i : ℕ) → suc i ≡ procs → mover procs (in_pipe i) ≡ 0
  last_pipe_moves i e = let same : (suc i == procs) ≡ true = ground arith in rw (same) refl

  pipe_moves : (i : ℕ) → suc i < procs → mover procs (in_pipe i) ≡ suc i
  pipe_moves i e = let other : (suc i == procs) ≡ false = ground arith in rw (other) refl

  pub turn-blocks :
      (p : Place) (s : Ring)
      → IsIn procs p
      → IsAt p s
      → (j : ℕ) → j ≢ mover procs p
      → turn procs j s ≡ none
  unfolding turn
  turn-blocks home s inside h zero other = absurd (other refl)
  turn-blocks home s inside h (suc k) other =
      absent_or_blocks k s (λ lt. child_blocks k s (h.holds (suc k)) (h.pipes k))
  turn-blocks (in_pipe i) s inside h zero other =
      let apart : procs - 1 ≢ i =
        (λ e. other (sym (last_pipe_moves i (let e' = e in omega arith)))) in
      parent_blocks s h.waits (h.pipes (procs - 1) ∙ other_index (procs - 1) i apart)
  turn-blocks (in_pipe i) s inside h (suc k) other = absent_or_blocks k s (λ lt.
      let apart : k ≢ i =
        (λ e. other (ap suc e ∙ sym (pipe_moves i (subst (λ n. suc n < procs) e lt)))) in
      child_blocks k s (h.holds (suc k)) (h.pipes k ∙ other_index k i apart))
  turn-blocks (after_pipe i) s inside h zero other = parent_blocks s h.waits (h.pipes (procs - 1))
  turn-blocks (after_pipe i) s inside h (suc k) other = absent_or_blocks k s (λ lt.
      let apart : (suc k == suc i) ≡ false = elim (Bool-cases (suc k == suc i)) [
        | inl e ↦ absurd (other (ground arith))
        | inr e ↦ e
      ] in
      child_blocks k s (h.holds (suc k) ∙ apart) (h.pipes k))

module _ (procs : ℕ) where
  ended_blocks : (s : Ring) → IsAt home s → s.left ≡ 0 → turn procs 0 s ≡ none
  unfolding turn turn_parent
  ended_blocks s h e = let waits = h.waits in rw (waits, e) refl

  mover_case :
      (p : Place) (s : Ring)
      → 0 < procs
      → IsIn procs p
      → IsAt p s
      → (turn procs (mover procs p) s ≡ none)
        ⊎ ((t : Ring) × (turn procs (mover procs p) s ≡ some t) × Moves procs p s t)
  mover_case home s pos inside h = elim (Bool-cases (s.left == 0)) [
    | inl e ↦ inl (ended_blocks s h (ground arith))
    | inr e ↦ inr (turn-Moves procs home s pos inside h (ground arith))
  ]
  mover_case (in_pipe i) s pos inside h = inr (turn-Moves procs (in_pipe i) s pos inside h tt)
  mover_case (after_pipe i) s pos inside h = inr (turn-Moves procs (after_pipe i) s pos inside h tt)

  -- a process blocks, or its call moves the token on
  pub turn_case :
      (p : Place) (s : Ring) (i : ℕ)
      → 0 < procs
      → IsIn procs p
      → IsAt p s
      → (turn procs i s ≡ none) ⊎ ((t : Ring) × (turn procs i s ≡ some t) × Moves procs p s t)
  turn_case p s i pos inside h = elim (Bool-cases (i == mover procs p)) [
    | inl e ↦
        let same : mover procs p ≡ i = ground arith in
        subst
          (λ n.
            (turn procs n s ≡ none) ⊎ ((t : Ring) × (turn procs n s ≡ some t) × Moves procs p s t))
          same (mover_case p s pos inside h)
    | inr e ↦ inl (
        turn-blocks procs p s inside h i
          (λ same. let both : (i == mover procs p) ≡ true = ground arith in absurd (ground arith)))
  ]
