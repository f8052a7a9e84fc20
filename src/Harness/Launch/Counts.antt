-- ===== src/Harness/Launch/Counts.antt =====
-- The children that `benchmp` of lmbench3/src/lib_timing.c creates and kills in its fork loop.
use mathlib.Core.List.{Perm, perm_middle, append_assoc}
use mathlib.Core.List.Perm
use mathlib.Core.Path.{subst}
use repo_support_tools.Base.{
  ℕ, zero, suc, ◌≡◌, Bool, true, false, List, [], ◌∷◌, ◌++◌, Bool-cases, inl, inr, refl, sym, ap,
  ◌∙◌,
}
use repo_support_tools.Harness.Control.{
  Reply, interrupted, quiet, read_fails, reads, Move, receives, delays, sends_start, asks_results,
  sends_exit, closes, Status, complete, fails, waits, Collected, receive_all, Stage, continue,
  kill_from, delay, ask_children, run_children, gather_results, Ended, finish, benchmp_parent,
}
use repo_support_tools.Harness.Control as Control
use repo_support_tools.Harness.Launch.{
  Fork, terminated, refused, forked, Step, creates, parents, kills, awaits, terminates,
  kill_children, await_children, from_parent, fork_children,
}

-- the children that the parent's part kills
unfoldable pub kills_of : List Move → List ℕ
kills_of [] = []
kills_of (receives k ∷ as') = kills_of as'
kills_of (delays t ∷ as') = kills_of as'
kills_of (sends_start m ∷ as') = kills_of as'
kills_of (asks_results ∷ as') = kills_of as'
kills_of (sends_exit m ∷ as') = kills_of as'
kills_of (Control.kills i ∷ as') = i ∷ kills_of as'
kills_of (closes ∷ as') = kills_of as'

-- the children that a call creates, and those that it kills because it fails
unfoldable pub created : List Step → List ℕ
created [] = []
created (creates i n ∷ ss) = i ∷ created ss
created (parents a ∷ ss) = created ss
created (kills i ∷ ss) = created ss
created (awaits i t ∷ ss) = created ss
created (terminates i ∷ ss) = created ss

unfoldable pub killed : List Step → List ℕ
killed [] = []
killed (creates i n ∷ ss) = killed ss
killed (parents a ∷ ss) = kills_of (a ∷ []) ++ killed ss
killed (kills i ∷ ss) = i ∷ killed ss
killed (awaits i t ∷ ss) = killed ss
killed (terminates i ∷ ss) = killed ss

pub kills_of-append : (xs ys : List Move) → kills_of (xs ++ ys) ≡ kills_of xs ++ kills_of ys
unfolding kills_of
kills_of-append [] ys = refl
kills_of-append (receives k ∷ xs) ys = kills_of-append xs ys
kills_of-append (delays t ∷ xs) ys = kills_of-append xs ys
kills_of-append (sends_start m ∷ xs) ys = kills_of-append xs ys
kills_of-append (asks_results ∷ xs) ys = kills_of-append xs ys
kills_of-append (sends_exit m ∷ xs) ys = kills_of-append xs ys
kills_of-append (Control.kills i ∷ xs) ys = ap (λ l. i ∷ l) (kills_of-append xs ys)
kills_of-append (closes ∷ xs) ys = kills_of-append xs ys

pub created-append : (xs ys : List Step) → created (xs ++ ys) ≡ created xs ++ created ys
unfolding created
created-append [] ys = refl
created-append (creates i n ∷ xs) ys = ap (λ l. i ∷ l) (created-append xs ys)
created-append (parents a ∷ xs) ys = created-append xs ys
created-append (kills i ∷ xs) ys = created-append xs ys
created-append (awaits i t ∷ xs) ys = created-append xs ys
created-append (terminates i ∷ xs) ys = created-append xs ys

pub killed-append : (xs ys : List Step) → killed (xs ++ ys) ≡ killed xs ++ killed ys
unfolding killed
killed-append [] ys = refl
killed-append (creates i n ∷ xs) ys = killed-append xs ys
killed-append (parents a ∷ xs) ys =
    ap (λ l. kills_of (a ∷ []) ++ l) (killed-append xs ys)
    ∙ sym (append_assoc (kills_of (a ∷ [])) (killed xs) (killed ys))
killed-append (kills i ∷ xs) ys = ap (λ l. i ∷ l) (killed-append xs ys)
killed-append (awaits i t ∷ xs) ys = killed-append xs ys
killed-append (terminates i ∷ xs) ys = killed-append xs ys

pub created-from_parent : (as' : List Move) → created (from_parent as') ≡ []
unfolding created
created-from_parent [] = refl
created-from_parent (a ∷ as') = created-from_parent as'

pub killed-from_parent : (as' : List Move) → killed (from_parent as') ≡ kills_of as'
unfolding killed kills_of
killed-from_parent [] = refl
killed-from_parent (a ∷ as') =
    ap (λ l. kills_of (a ∷ []) ++ l) (killed-from_parent as') ∙ sym (kills_of-append (a ∷ []) as')

-- waiting for the children creates none and kills none at once
pub await_children-quiet :
    (slow : ℕ → Bool) (i seconds : ℕ)
    → (created (await_children slow i seconds) ≡ []) × (killed (await_children slow i seconds) ≡ [])
unfolding await_children created killed
await_children-quiet slow zero seconds = (refl, refl)
await_children-quiet slow (suc i) seconds = elim (Bool-cases (slow i)) [
  | inl e ↦ rw (e) (await_children-quiet slow i 1)
  | inr e ↦ rw (e) (await_children-quiet slow i seconds)
]

-- the children below `i`, from the last one, and `left` children from `i`
abbrev down : ℕ → List ℕ
down zero = []
down (suc i) = i ∷ down i

abbrev pub range : (i left : ℕ) → List ℕ
range i zero = []
range i (suc left) = i ∷ range (suc i) left

kill_children-down :
    (i : ℕ) → (created (kill_children i) ≡ []) × (killed (kill_children i) ≡ down i)
unfolding kill_children created killed
kill_children-down zero = (refl, refl)
kill_children-down (suc i) = let rest = kill_children-down i in (rest.0, ap (λ l. i ∷ l) rest.1)

-- The fork loop creates all children and kills none, or it kills those that it has created.
abbrev pub Forks : (i left : ℕ) → Bool × List Step → Type 0
Forks i left (true, ss) = (created ss ≡ range i left) × (killed ss ≡ [])
Forks i left (false, ss) = Perm (killed ss) (created ss ++ down i)

pub fork_children-Forks :
    (forks : ℕ → Fork) (n i left : ℕ) → Forks i left (fork_children forks n i left)
unfolding fork_children created killed
fork_children-Forks forks n i zero = (refl, refl)
fork_children-Forks forks n i (suc left) =
    by (fork_children-Forks forks n (suc i) left) (forks i) refl
  where
    stopped : Forks i (suc left) (false, kill_children i)
    stopped =
        let k = kill_children-down i in
        subst (λ l. Perm l (created (kill_children i) ++ down i)) (sym k.1)
          (subst (λ l. Perm (down i) (l ++ down i)) (sym k.0) (Perm.refl (down i)))

    go : (r : Bool × List Step) → Forks (suc i) left r → Forks i (suc left) (r.0, creates i n ∷ r.1)
    go (true, ss) h = (ap (λ l. i ∷ l) h.0, h.1)
    go (false, ss) h = Perm.trans h (perm_middle (created ss) (down i))

    by :
        Forks (suc i) left (fork_children forks n (suc i) left)
        → (x : Fork) → forks i ≡ x
        → Forks i (suc left) (fork_children forks n i (suc left))
    by rest terminated e = rw (e) stopped
    by rest refused e = rw (e) stopped
    by rest forked e = rw (e) (go (fork_children forks n (suc i) left) rest)
