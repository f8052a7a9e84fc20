-- ===== src/Mhz/Filtered.antt =====
-- `filter_data` of lmbench3/src/mhz.c filters in place.
use mathlib.Core.List.{append_assoc, append-nil}
use mathlib.Core.Path.{ap₂}
use repo_support_tools.Base.{
  ℕ, zero, suc, ◌+◌, ◌≤◌, ◌<◌, ◌≡◌, Bool, true, false, List, [], ◌∷◌, ◌++◌, length, get_or, set,
  take, drop, take-suc, take-set_le, get_or-set_self, length-set, refl, sym, ap, ◌∙◌, arith,
  Bool-cases, inl, inr, ltb, if◌then◌else◌,
}
use repo_support_tools.Base.Int.{ℤ}
use repo_support_tools.Doubles.{Doubles}
use repo_support_tools.Mhz.{is_inside, filter_loop, filter_data, middle}

module _ (f : Doubles) (sqrt : f.D → f.D) (to_int : f.D → ℤ) where
  open f use {D, of_ℕ}

  drop-get_or :
      (l : List D) (i : ℕ) → i < length l → drop i l ≡ get_or l i (of_ℕ 0) ∷ drop (suc i) l
  drop-get_or [] i h = absurd (omega arith)
  drop-get_or (x ∷ l) zero h = refl
  drop-get_or (x ∷ l) (suc i) h = drop-get_or l i (omega arith)

  drop-set_lt : (l : List D) (i k : ℕ) (v : D) → k < i → drop i (set l k v) ≡ drop i l
  drop-set_lt [] i k v h = refl
  drop-set_lt (x ∷ l) zero k v h = absurd (omega arith)
  drop-set_lt (x ∷ l) (suc i) zero v h = refl
  drop-set_lt (x ∷ l) (suc i) (suc k) v h = drop-set_lt l i k v (omega arith)

  -- the values that pass the test, in their order
  abbrev pub inside_of : (median : D) → List D → List D
  inside_of median [] = []
  inside_of median (v ∷ vs) =
      if is_inside f sqrt to_int median v then v ∷ inside_of median vs else inside_of median vs

  -- the array after `if (i > tests) values[tests] = values[i];`
  abbrev moved : (i tests : ℕ) → List D → List D
  moved i tests values = if ltb tests i then set values tests (get_or values i (of_ℕ 0)) else values

  moved_lem :
      (i tests : ℕ) (values : List D)
      → tests ≤ i
      → i < length values
      → (take (suc tests) (moved i tests values)
          ≡ take tests values ++ get_or values i (of_ℕ 0) ∷ [])
        × (drop (suc i) (moved i tests values) ≡ drop (suc i) values)
        × (length (moved i tests values) ≡ length values)
  moved_lem i tests values le below = elim (Bool-cases (ltb tests i)) [
    | inl less ↦
        let v = get_or values i (of_ℕ 0) in
        rw less (
          take-suc (set values tests v) tests (of_ℕ 0) (omega (arith, length-set values tests v))
              ∙ ap (λ l. l ++ get_or (set values tests v) tests (of_ℕ 0) ∷ [])
                  (take-set_le values tests tests v (omega arith))
              ∙ ap (λ x. take tests values ++ x ∷ [])
                  (get_or-set_self values tests v (of_ℕ 0) (omega arith)),
          drop-set_lt values (suc i) tests v (omega arith),
          length-set values tests v,
        )
    | inr same ↦
        let e : tests ≡ i = ground arith in
        rw same (
          take-suc values tests (of_ℕ 0) (omega arith)
              ∙ ap (λ n. take tests values ++ get_or values n (of_ℕ 0) ∷ []) e,
          refl,
          refl,
        )
  ]

  drop_all : (l : List D) (i : ℕ) → i ≡ length l → drop i l ≡ []
  drop_all [] zero h = refl
  drop_all [] (suc i) h = refl
  drop_all (x ∷ l) zero h = absurd (omega arith)
  drop_all (x ∷ l) (suc i) h = drop_all l i (omega arith)

  -- the values from `i` on that pass the test, by what the one at `i` does
  inside_of-drop :
      (median : D) (i : ℕ) (values : List D) (b : Bool)
      → i < length values
      → is_inside f sqrt to_int median (get_or values i (of_ℕ 0)) ≡ b
      → inside_of median (drop i values) ≡ (
          if b
          then get_or values i (of_ℕ 0) ∷ inside_of median (drop (suc i) values)
          else inside_of median (drop (suc i) values))
  inside_of-drop median i values b below h =
      let v = get_or values i (of_ℕ 0) in
      let rest = inside_of median (drop (suc i) values) in
      ap (inside_of median) (drop-get_or values i below)
      ∙ ap (λ (c : Bool). if c then v ∷ rest else rest) h

  filter_loop_lem :
      (median : D) (k i tests : ℕ) (values : List D)
      → tests ≤ i
      → i + k ≡ length values
      → (let r = filter_loop f sqrt to_int median k i tests values in
          take r.0 r.1 ≡ take tests values ++ inside_of median (drop i values))
  unfolding filter_loop
  filter_loop_lem median zero i tests values le e = sym (
      ap (λ l. take tests values ++ inside_of median l) (drop_all values i (omega arith))
      ∙ append-nil (take tests values))
  filter_loop_lem median (suc k) i tests values le e =
      let v = get_or values i (of_ℕ 0) in
      elim (Bool-cases (is_inside f sqrt to_int median v)) [
        | inr out ↦
            rw (out, filter_loop)
              (filter_loop_lem median k (suc i) tests values (omega arith) (omega arith)
                ∙ ap (λ l. take tests values ++ l)
                    (sym (inside_of-drop median i values false (omega arith) out)))
        | inl keep ↦
            let m = moved_lem i tests values le (omega arith) in
            rw (keep, filter_loop)
              (filter_loop_lem median k (suc i) (suc tests) (moved i tests values) (omega arith)
                  (omega (arith, m.2))
                ∙ ap₂ (λ a b. a ++ inside_of median b) m.0 m.1
                ∙ append_assoc (take tests values) (v ∷ []) (inside_of median (drop (suc i) values))
                ∙ ap (λ l. take tests values ++ l)
                    (sym (inside_of-drop median i values true (omega arith) keep)))
      ]

  -- `filter_data` leaves the values between 1/20 of the median and 20 times the median in the lower part
  -- of the array, in their order, and gives their number.
  pub filter_data_lem :
      (values : List D)
      → (let r = filter_data f sqrt to_int values in
          take r.0 r.1 ≡ inside_of (middle f sqrt to_int values) values)
  unfolding filter_data
  filter_data_lem values =
      filter_loop_lem (middle f sqrt to_int values) (length values) 0 0 values (omega arith)
        (omega arith)
