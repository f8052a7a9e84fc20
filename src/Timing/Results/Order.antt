-- ===== src/Timing/Results/Order.antt =====
-- What `insertsort` keeps: the entries in use stay in descending order of time per iteration, and
-- are the measurements that were put in.
use repo_support_tools.Base.{
  ℕ, zero, suc, ◌+◌, ◌≤◌, ◌<◌, ◌≡◌, true, false, List, [], ◌∷◌, ◌++◌, ltb, ltb→lt, length, All,
  arith, Bool-cases, inl, inr, if◌then◌else◌, ◌==◌,
}
use mathlib.Core.List.{Perm, append_assoc, perm_append_comm}
use mathlib.Core.List.Perm
use repo_support_tools.Doubles.{Doubles, IsOrdered}
use repo_support_tools.Timing.Results.{Value, Results, slower, insertsort, collect}
use repo_support_tools.Timing.Results.Place.{
  entries, insert, insertsort-insert, count-insertsort, length-insertsort,
}

module _ (f : Doubles) where
  -- no entry is slower than one that stands before it
  abbrev pub IsDescending : List Value → Type 0
  IsDescending [] = Unit
  IsDescending (x ∷ xs) = All (λ w. slower f w x ≡ false) xs × IsDescending xs

  abbrev pub IsPositive : Value → Type 0
  IsPositive x = 0 < x.u

  -- the invariant of a result set
  pub record IsValid (r : Results) : Type 0 where
    pub room : r.count ≤ length r.v
    pub positive : All IsPositive (entries r)
    pub descending : IsDescending (entries r)

  All-insert :
      (P : Value → Type 0) (x : Value) (l : List Value) → P x → All P l → All P (insert f x l)
  unfolding insert
  All-insert P x [] p h = (p, tt)
  All-insert P x (w ∷ ws) p h = elim (Bool-cases (slower f x w)) [
    | inl e ↦ rw e (p, h)
    | inr e ↦ rw e (h.0, All-insert P x ws p h.1)
  ]

  insert-perm : (x : Value) (l : List Value) → Perm (insert f x l) (x ∷ l)
  unfolding insert
  insert-perm x [] = Perm.rfl
  insert-perm x (w ∷ ws) = elim (Bool-cases (slower f x w)) [
    | inl e ↦ rw e Perm.rfl
    | inr e ↦ rw e (Perm.trans (Perm.cons w (insert-perm x ws)) (Perm.swap x w ws))
  ]

  module _ (o : IsOrdered f) where
    slower_trans :
        (x w y : Value)
        → 0 < x.u
        → 0 < w.u
        → 0 < y.u
        → slower f y w ≡ false
        → slower f w x ≡ false
        → slower f y x ≡ false
    unfolding slower
    slower_trans x w y px pw py h k = o.not_lt_trans x.u x.n w.u w.n y.u y.n px pw py k h

    pub slower_asymm :
        (x w : Value) → 0 < x.u → 0 < w.u → slower f x w ≡ true → slower f w x ≡ false
    unfolding slower
    slower_asymm x w px pw h = o.asymm w.u w.n x.u x.n pw px h

    below-head :
        (x w : Value) (ws : List Value)
        → 0 < x.u
        → 0 < w.u
        → All IsPositive ws
        → slower f w x ≡ false
        → All (λ y. slower f y w ≡ false) ws
        → All (λ y. slower f y x ≡ false) ws
    below-head x w [] px pw ps h k = tt
    below-head x w (y ∷ ws) px pw ps h k =
        (slower_trans x w y px pw ps.0 k.0 h, below-head x w ws px pw ps.1 h k.1)

    insert-IsDescending :
        (x : Value) (l : List Value)
        → 0 < x.u
        → All IsPositive l
        → IsDescending l
        → IsDescending (insert f x l)
    unfolding insert
    insert-IsDescending x [] px ps d = (tt, tt)
    insert-IsDescending x (w ∷ ws) px ps d = elim (Bool-cases (slower f x w)) [
      | inl e ↦
          let first = slower_asymm x w px ps.0 e in
          rw e ((first, below-head x w ws px ps.0 ps.1 first d.0), d)
      | inr e ↦
          rw e (
            All-insert (λ y. slower f y w ≡ false) x ws e d.0,
            insert-IsDescending x ws px ps.1 d.1,
          )
    ]

    -- `insertsort` keeps the invariant of a result set that has room for one more entry; a zero
    -- measurement is not stored.
    pub insertsort-IsValid :
        (u n : ℕ) (r : Results) → IsValid r → r.count < length r.v → IsValid (insertsort f u n r)
    insertsort-IsValid zero n r v room = unfold insertsort in v
    insertsort-IsValid (suc u) n r v room =
        let x : Value = record { u = suc u; n = n } in
        let placed = insertsort-insert f (suc u) n r (omega arith) room in
        record {
          room = omega (
            arith,
            length-insertsort f (suc u) n r,
            count-insertsort f (suc u) n r (omega arith),
          );
          positive = rw placed (All-insert IsPositive x (entries r) (omega arith) v.positive);
          descending =
              rw placed (insert-IsDescending x (entries r) (omega arith) v.positive v.descending);
        }

  -- the measurements that `insertsort` stores
  abbrev pub measured : List Value → List Value
  measured [] = []
  measured (m ∷ ms) = if ltb 0 m.u then m ∷ measured ms else measured ms

  pub collect-step :
      (m : Value) (ms : List Value) (r : Results)
      → collect f (m ∷ ms) r ≡ collect f ms (insertsort f m.u m.n r)
  unfolding collect insertsort
  collect-step m ms r = elim (Bool-cases (ltb 0 m.u)) [
    | inl e ↦ rw e
    | inr e ↦ let none_left : (m.u == 0) ≡ true = ground arith in rw (e, none_left)
  ]

  length-measured : (ms : List Value) → length (measured ms) ≤ length ms
  length-measured [] = omega arith
  length-measured (m ∷ ms) = ground (arith, length-measured ms)

  insertsort-perm :
      (m : Value) (r : Results)
      → r.count < length r.v
      → Perm (entries (insertsort f m.u m.n r)) (measured (m ∷ []) ++ entries r)
  insertsort-perm m r room = elim (Bool-cases (ltb 0 m.u)) [
    | inl e ↦
        rw (e, insertsort-insert f m.u m.n r (ltb→lt 0 m.u e) room) (insert-perm m (entries r))
    | inr e ↦
        let none_left : (m.u == 0) ≡ true = ground arith in
        unfold insertsort in rw (e, none_left) Perm.rfl
  ]

  measured-cons :
      (m : Value) (ms : List Value) → measured (m ∷ ms) ≡ measured (m ∷ []) ++ measured ms
  measured-cons m ms = elim (Bool-cases (ltb 0 m.u)) [ inl e ↦ rw e | inr e ↦ rw e ]

  room-insertsort :
      (m : Value) (r : Results) (k : ℕ)
      → r.count + suc k ≤ length r.v
      → (insertsort f m.u m.n r).count + k ≤ length (insertsort f m.u m.n r).v
  room-insertsort m r k room = elim (Bool-cases (m.u == 0)) [
    | inl e ↦ unfold insertsort in rw e (omega arith)
    | inr e ↦
        let pos : 0 < m.u = ground arith in
        omega (arith, count-insertsort f m.u m.n r pos, length-insertsort f m.u m.n r)
  ]

  -- A run of measurements leaves in the result set, in some order, what was there and every
  -- non-zero measurement, if the array has room for all of them.
  pub collect-perm :
      (ms : List Value) (r : Results)
      → r.count + length ms ≤ length r.v
      → Perm (entries (collect f ms r)) (measured ms ++ entries r)
  collect-perm [] r room = unfold collect in Perm.rfl
  collect-perm (m ∷ ms) r room =
      let r' = insertsort f m.u m.n r in
      rw
        (
          collect-step m ms r,
          measured-cons m ms,
          append_assoc (measured (m ∷ [])) (measured ms) (entries r),
        )
        (Perm.trans (collect-perm ms r' (room-insertsort m r (length ms) room)) (
          Perm.trans (Perm.append_left (measured ms) (insertsort-perm m r (omega arith))) (
            rw (← append_assoc, ← append_assoc)
              (Perm.append_right (entries r)
                (perm_append_comm (measured ms) (measured (m ∷ [])))))))

  module _ (o : IsOrdered f) where
    -- A run of measurements keeps the invariant of a result set, if the array has room for all.
    pub collect-IsValid :
        (ms : List Value) (r : Results)
        → IsValid r
        → r.count + length ms ≤ length r.v
        → IsValid (collect f ms r)
    collect-IsValid [] r v room = unfold collect in v
    collect-IsValid (m ∷ ms) r v room = rw (collect-step m ms r) (
        collect-IsValid ms (insertsort f m.u m.n r) (insertsort-IsValid o m.u m.n r v (omega arith))
          (room-insertsort m r (length ms) room))
