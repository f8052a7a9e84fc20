-- ===== src/LatCtx/Token.antt =====
-- The token in the ring of lat_ctx.c of lmbench3/src.
use repo_support_tools.Base.{
  ℕ, zero, suc, ◌+◌, ◌-◌, ◌*◌, ◌<◌, ◌≡◌, inl, inr, Bool, true, false, Bool-cases, some,
  if◌then◌else◌, ◌==◌, refl, ◌∙◌, arith,
}
use repo_support_tools.LatCtx.{Ring, put, get, update, turn_parent, turn_child}

-- where the token is: nowhere, between two iterations; in a pipe; or with the process after a pipe
pub data Place : Type 0 where
  home : Place
  in_pipe : ℕ → Place
  after_pipe : ℕ → Place

abbrev pub messages_at : Place → ℕ → ℕ
messages_at home j = 0
messages_at (in_pipe i) j = if j == i then 1 else 0
messages_at (after_pipe i) j = 0

abbrev pub held_at : Place → ℕ → Bool
held_at home j = false
held_at (in_pipe i) j = false
held_at (after_pipe i) j = j == suc i

abbrev pub away : Place → Bool
away home = false
away (in_pipe i) = true
away (after_pipe i) = true

-- there is one token, at the place, or none at home
pub record IsAt (p : Place) (s : Ring) : Type 0 where
  pub pipes : (j : ℕ) → s.pipes j ≡ messages_at p j
  pub holds : (j : ℕ) → s.holds j ≡ held_at p j
  pub waits : s.waits ≡ away p

put_one : (i : ℕ) (pipes : ℕ → ℕ) (j : ℕ) → pipes j ≡ 0 → put i pipes j ≡ (if j == i then 1 else 0)
put_one i pipes j h = elim (Bool-cases (j == i)) [ inl e ↦ rw (e, h) refl | inr e ↦ rw (e, h) refl ]

get_one : (i : ℕ) (pipes : ℕ → ℕ) (j : ℕ) → pipes j ≡ (if j == i then 1 else 0) → get i pipes j ≡ 0
get_one i pipes j h = elim (Bool-cases (j == i)) [ inl e ↦ rw (h, e) refl | inr e ↦ rw (h, e) refl ]

update-true :
    (i : ℕ) (holds : ℕ → Bool) (j : ℕ) → holds j ≡ false → update i true holds j ≡ (j == i)
update-true i holds j h = elim (Bool-cases (j == i)) [
  | inl e ↦ rw (e) refl
  | inr e ↦ rw (e, h) refl
]

update-false :
    (i : ℕ) (holds : ℕ → Bool) (j : ℕ) → holds j ≡ (j == i) → update i false holds j ≡ false
update-false i holds j h = elim (Bool-cases (j == i)) [
  | inl e ↦ rw (e) refl
  | inr e ↦ rw (e) (h ∙ e)
]

pub same_index : (i : ℕ) → (i == i) ≡ true
same_index i = ground arith

-- the calls of one iteration
first_call :
    (n procs : ℕ)
    → 0 < n
    → 0 < procs
    → suc ((n - 1) * (2 * procs) + (2 * (procs - 0) - 1)) ≡ n * (2 * procs) + 0
first_call zero procs h pos = absurd (omega arith)
first_call (suc n) procs h pos = let back : suc n - 1 ≡ n = omega arith in rw (back) (omega arith)

module _ (procs : ℕ) where
  abbrev pub IsIn : Place → Type 0
  IsIn home = Unit
  IsIn (in_pipe i) = i < procs
  IsIn (after_pipe i) = suc i < procs

  -- the process whose turn it is, and the place after its turn
  abbrev pub mover : Place → ℕ
  mover home = 0
  mover (in_pipe i) = if suc i == procs then 0 else suc i
  mover (after_pipe i) = suc i

  abbrev pub next_place : Place → Place
  next_place home = in_pipe 0
  next_place (in_pipe i) = if suc i == procs then home else after_pipe i
  next_place (after_pipe i) = in_pipe (suc i)

  -- the calls until the token is home
  abbrev pub remaining : Place → ℕ
  remaining home = 0
  remaining (in_pipe i) = 2 * (procs - i) - 1
  remaining (after_pipe i) = 2 * (procs - i) - 2

  -- the calls that are left in all
  abbrev pub work : Place → Ring → ℕ
  work p s = s.left * (2 * procs) + remaining p

  -- a turn moves the token on, and is one of the calls that are left
  pub record Moves (p : Place) (s t : Ring) : Type 0 where
    pub place : IsAt (next_place p) t
    pub inside : IsIn (next_place p)
    pub counted : suc (work (next_place p) t) ≡ work p s

  pub parent_sends :
      (s : Ring)
      → 0 < procs
      → IsAt home s
      → 0 < s.left
      → (t : Ring) × (turn_parent procs s ≡ some t) × Moves home s t
  unfolding turn_parent
  parent_sends s pos h more =
      let waits = h.waits in
      let some' : (s.left == 0) ≡ false = ground arith in
      rw (waits, some')
        (
          record s { pipes = put 0 s.pipes; waits = true; left = s.left - 1 },
          refl,
          record {
            place = record {
              pipes = λ j. put_one 0 s.pipes j (h.pipes j);
              holds = h.holds;
              waits = refl;
            };
            inside = pos;
            counted = first_call s.left procs more pos;
          },
        )

  -- the last pipe is read by the process 0
  pub parent_receives :
      (i : ℕ) (s : Ring)
      → suc i ≡ procs
      → IsAt (in_pipe i) s
      → (t : Ring) × (turn_parent procs s ≡ some t) × Moves (in_pipe i) s t
  unfolding turn_parent
  parent_receives i s last h =
      let waits = h.waits in
      let index : procs - 1 ≡ i = omega arith in
      let there : s.pipes i ≡ 1 = h.pipes i ∙ (let e = same_index i in rw (e) refl) in
      let ends : (suc i == procs) ≡ true = ground arith in
      rw (waits, index, there)
        (
          record s { pipes = get i s.pipes; waits = false },
          refl,
          record {
            place = rw (ends) (record {
              pipes = λ j. get_one i s.pipes j (h.pipes j);
              holds = h.holds;
              waits = refl;
            });
            inside = rw (ends) tt;
            counted = rw (ends) (omega arith);
          },
        )

  -- another pipe is read by the process after it
  pub child_receives :
      (i : ℕ) (s : Ring)
      → suc i < procs
      → IsAt (in_pipe i) s
      → (t : Ring) × (turn_child (suc i) s ≡ some t) × Moves (in_pipe i) s t
  unfolding turn_child
  child_receives i s inside h =
      let free : s.holds (suc i) ≡ false = h.holds (suc i) in
      let there : s.pipes i ≡ 1 = h.pipes i ∙ (let e = same_index i in rw (e) refl) in
      let index : suc i - 1 ≡ i = omega arith in
      let on : (suc i == procs) ≡ false = ground arith in
      rw (free, index, there)
        (
          record s { pipes = get i s.pipes; holds = update (suc i) true s.holds },
          refl,
          record {
            place = rw (on) (record {
              pipes = λ j. get_one i s.pipes j (h.pipes j);
              holds = λ j. update-true (suc i) s.holds j (h.holds j);
              waits = h.waits;
            });
            inside = rw (on) inside;
            counted = rw (on) (omega arith);
          },
        )

  pub child_sends :
      (i : ℕ) (s : Ring)
      → suc i < procs
      → IsAt (after_pipe i) s
      → (t : Ring) × (turn_child (suc i) s ≡ some t) × Moves (after_pipe i) s t
  unfolding turn_child
  child_sends i s inside h =
      let busy : s.holds (suc i) ≡ true = h.holds (suc i) ∙ same_index (suc i) in
      rw (busy) (
        record s { pipes = put (suc i) s.pipes; holds = update (suc i) false s.holds },
        refl,
        record {
          place = record {
            pipes = λ j. put_one (suc i) s.pipes j (h.pipes j);
            holds = λ j. update-false (suc i) s.holds j (h.holds j);
            waits = h.waits;
          };
          inside = inside;
          counted = omega arith;
        },
      )
