-- ===== src/Harness/Control/Received.antt =====
-- What the loops of `benchmp_parent` in lmbench3/src/lib_timing.c store, however the bytes are cut
-- into reads.
use repo_support_tools.Base.{
  ℕ, zero, suc, ◌+◌, ◌-◌, ◌*◌, ◌≤◌, ◌≡◌, min, true, false, List, [], ◌∷◌, ◌++◌, length, take, drop,
  map, All, arith, refl, sym, ◌∙◌, ap, length-take, length-drop, append_take-drop,
}
use mathlib.Core.List.{append_assoc, append-nil}
use mathlib.Core.Path.{subst}
use repo_support_tools.Doubles.{Doubles}
use repo_support_tools.Timing.Clock.{Clock}
use repo_support_tools.Timing.Results.{Value, Results, insertinit, sizeof_result}
use repo_support_tools.Timing.Calibration.{set_results}
use repo_support_tools.Harness.Parent.{gather}
use repo_support_tools.Harness.Control.{
  Reply, interrupted, quiet, read_fails, reads, complete, Collected, receives, receive_all, Stage,
  continue, ask_children, run_children, gather_results, finish, benchmp_parent,
}

-- no signal, no error of the pipe and no failed read
abbrev pub IsPrompt : Reply → Type 0
IsPrompt interrupted = ⊥
IsPrompt quiet = Unit
IsPrompt read_fails = ⊥
IsPrompt (reads k) = Unit

-- the rounds in which there is something to read
abbrev pub arrivals : List Reply → ℕ
arrivals [] = 0
arrivals (interrupted ∷ es) = arrivals es
arrivals (quiet ∷ es) = arrivals es
arrivals (read_fails ∷ es) = arrivals es
arrivals (reads zero ∷ es) = arrivals es
arrivals (reads (suc k) ∷ es) = suc (arrivals es)

-- the loop has stored `xs`, the answers it has left are as many as needed, and `ys` is in the pipe
pub record Holds (n : ℕ) (es : List Reply) (xs ys : List ℕ) (c : Collected) : Type 0 where
  pub status : c.status ≡ complete
  pub buf : c.buf ≡ xs
  pub pipe : c.pipe ≡ ys
  pub prompt : All IsPrompt c.answers
  pub left : arrivals es ≤ n + arrivals c.answers

take-append_le : (m : ℕ) (xs ys : List ℕ) → m ≤ length xs → take m (xs ++ ys) ≡ take m xs
take-append_le zero xs ys h = refl
take-append_le (suc m) [] ys h = absurd (omega arith)
take-append_le (suc m) (x ∷ xs) ys h = ap (λ l. x ∷ l) (take-append_le m xs ys (omega arith))

drop-append_le : (m : ℕ) (xs ys : List ℕ) → m ≤ length xs → drop m (xs ++ ys) ≡ drop m xs ++ ys
drop-append_le zero xs ys h = refl
drop-append_le (suc m) [] ys h = absurd (omega arith)
drop-append_le (suc m) (x ∷ xs) ys h = drop-append_le m xs ys (omega arith)

-- a read of `m` bytes before the rest of the loop
Holds-read :
    (n m k : ℕ) (es : List Reply) (xs ys : List ℕ) (c : Collected)
    → m ≤ n
    → arrivals (reads k ∷ es) ≤ m + arrivals es
    → Holds (n - m) es (drop m xs) ys c
    → Holds n
        (reads k ∷ es)
        xs
        ys
        (record c { buf = take m xs ++ c.buf; actions = receives m ∷ c.actions })
Holds-read n m k es xs ys c small more rest = record {
  status = rest.status;
  buf = ap (λ l. take m xs ++ l) rest.buf ∙ append_take-drop m xs;
  pipe = rest.pipe;
  prompt = rest.prompt;
  left = let left = rest.left in omega arith;
}

arrivals_more : (k n : ℕ) (es : List Reply) → arrivals (reads k ∷ es) ≤ min k (suc n) + arrivals es
arrivals_more zero n es = omega arith
arrivals_more (suc k) n es = omega arith

-- A loop for as many bytes as `xs` has stores `xs`, whatever the sizes of the reads.
receive_all-Holds :
    (n : ℕ) (es : List Reply) (xs ys : List ℕ)
    → length xs ≡ n
    → All IsPrompt es
    → n ≤ arrivals es
    → Holds n es xs ys (receive_all n es (xs ++ ys))
unfolding receive_all
receive_all-Holds zero es [] ys e h enough = record {
  status = refl;
  buf = refl;
  pipe = refl;
  prompt = h;
  left = omega arith;
}
receive_all-Holds zero es (x ∷ xs) ys e h enough = absurd (omega arith)
receive_all-Holds (suc n) [] xs ys e h enough = absurd (omega arith)
receive_all-Holds (suc n) (interrupted ∷ es) xs ys e h enough = absurd h.0
receive_all-Holds (suc n) (read_fails ∷ es) xs ys e h enough = absurd h.0
receive_all-Holds (suc n) (quiet ∷ es) xs ys e h enough =
    let rest = receive_all-Holds (suc n) es xs ys e h.1 enough in
    record {
      status = rest.status;
      buf = rest.buf;
      pipe = rest.pipe;
      prompt = rest.prompt;
      left = rest.left;
    }
receive_all-Holds (suc n) (reads k ∷ es) xs ys e h enough =
    let m = min k (suc n) in
    let fits : m ≤ length xs = omega arith in
    let got : take m (xs ++ ys) ≡ take m xs = take-append_le m xs ys fits in
    let size : length (take m xs) ≡ m = omega (arith, length-take m xs) in
    let still : drop m (xs ++ ys) ≡ drop m xs ++ ys = drop-append_le m xs ys fits in
    let more = arrivals_more k n es in
    rw (got, size, still)
      (Holds-read (suc n) m k es xs ys (receive_all (suc n - m) es (drop m xs ++ ys)) (omega arith)
        more
        (receive_all-Holds (suc n - m) es (drop m xs) ys (omega (arith, length-drop m xs)) h.1
          (omega arith)))

continue_complete :
    (got : Collected) (merged : Results) (rest : Stage)
    → got.status ≡ complete
    → continue got merged rest ≡ record rest { actions = got.actions ++ rest.actions }
unfolding continue
continue_complete got merged rest h = rw h refl

-- all bytes of the reports
abbrev pub concat : List (List ℕ) → List ℕ
concat [] = []
concat (r ∷ rs) = r ++ concat rs

module _ (f : Doubles) (to_results : List ℕ → Results) (parallel repetitions : ℕ) where
  abbrev IsReport : List ℕ → Type 0
  IsReport r = length r ≡ sizeof_result repetitions

  abbrev Merges : Stage → List (List ℕ) → Results → Type 0
  Merges s reports merged =
      (s.status ≡ complete) × (s.merged ≡ gather f (map to_results reports) merged)

  ask_children-Merges :
      (reports : List (List ℕ)) (es : List Reply) (ys : List ℕ) (merged : Results)
      → All IsReport reports
      → All IsPrompt es
      → length reports * sizeof_result repetitions ≤ arrivals es
      → Merges
          (ask_children f to_results parallel repetitions
            (length reports)
            es
            (concat reports ++ ys)
            merged)
          reports
          merged
  unfolding ask_children gather continue
  ask_children-Merges [] es ys merged sizes prompt enough = (refl, refl)
  ask_children-Merges (r ∷ rs) es ys merged sizes prompt enough =
      let n = sizeof_result repetitions in
      let got = receive_all-Holds n es r (concat rs ++ ys) sizes.0 prompt (ground arith) in
      let left = got.left in
      rw (append_assoc r (concat rs) ys, got.status, got.buf, got.pipe)
        (ask_children-Merges rs _ ys _ sizes.1 got.prompt (ground arith))

  -- every child is asked, and nothing follows
  children-Merges :
      (reports : List (List ℕ)) (es : List Reply) (merged : Results)
      → length reports ≡ parallel
      → All IsReport reports
      → All IsPrompt es
      → parallel * sizeof_result repetitions ≤ arrivals es
      → Merges
          (ask_children f to_results parallel repetitions parallel es (concat reports) merged)
          reports
          merged
  children-Merges reports es merged np sizes prompt enough =
      let run : ℕ → List ℕ → Stage =
        (λ n l. ask_children f to_results parallel repetitions n es l merged) in
      subst (λ n. Merges (run n (concat reports)) reports merged) np
        (subst (λ l. Merges (run (length reports) l) reports merged) (append-nil (concat reports))
          (ask_children-Merges reports es [] merged sizes prompt
            (subst (λ n. n * sizeof_result repetitions ≤ arrivals es) (sym np) enough)))

  gather_results-Merges :
      (warmup : ℕ) (readies dones : List ℕ) (reports : List (List ℕ)) (es : List Reply)
      (merged : Results)
      → length readies ≡ parallel
      → length dones ≡ parallel
      → length reports ≡ parallel
      → All IsReport reports
      → All IsPrompt es
      → parallel + parallel + parallel * sizeof_result repetitions ≤ arrivals es
      → Merges
          (gather_results f to_results parallel repetitions warmup es
            (readies ++ (dones ++ concat reports))
            merged)
          reports
          (insertinit merged)
  unfolding gather_results run_children
  gather_results-Merges warmup readies dones reports es merged nr nd np sizes prompt enough =
      let ready =
        receive_all-Holds parallel es readies (dones ++ concat reports) nr prompt (omega arith) in
      let still = ready.left in
      let done =
        receive_all-Holds parallel _ dones (concat reports) nd ready.prompt (omega arith) in
      let left = done.left in
      let asked =
        children-Merges reports _ (insertinit merged) np sizes done.prompt (omega arith) in
      rw
        (
          continue_complete (receive_all parallel es (readies ++ (dones ++ concat reports))) _ _
              ready.status,
          ready.pipe,
          run_children,
          continue_complete (receive_all parallel _ (dones ++ concat reports)) _ _ done.status,
          done.pipe,
        )
        asked

  -- Given that every report has the size of a `result_t`, that no signal, error or failed read
  -- comes, and that something arrives in as many rounds as there are bytes to read,
  -- `benchmp_parent` ends with the median of the merged reports of all children, however the bytes
  -- are cut into reads.
  pub benchmp_parent-merges :
      (warmup : ℕ) (readies dones : List ℕ) (reports : List (List ℕ)) (es : List Reply)
      (v : List Value) (clock : Clock)
      → length readies ≡ parallel
      → length dones ≡ parallel
      → length reports ≡ parallel
      → All IsReport reports
      → All IsPrompt es
      → parallel + parallel + parallel * sizeof_result repetitions ≤ arrivals es
      → (benchmp_parent f to_results parallel repetitions false true warmup es
            (readies ++ (dones ++ concat reports))
            v
            clock).status
          ≡ complete
        × (benchmp_parent f to_results parallel repetitions false true warmup es
            (readies ++ (dones ++ concat reports))
            v
            clock).clock
          ≡ set_results
              (gather f (map to_results reports) (insertinit (record { count = 0; v = v })))
              clock
  unfolding benchmp_parent finish
  benchmp_parent-merges warmup readies dones reports es v clock nr nd np sizes prompt enough =
      let merges =
        gather_results-Merges warmup readies dones reports es (record { count = 0; v = v }) nr nd np
          sizes prompt enough in
      rw merges.0 (refl, ap (λ r. set_results r clock) merges.1)
