-- ===== src/Timing/Results/Place.antt =====
-- `insertsort` on the array against insertion into the list of the entries in use.
use repo_support_tools.Base.{
  ℕ, zero, suc, ◌+◌, ◌-◌, ◌≤◌, ◌<◌, ◌≡◌, refl, sym, ap, ◌∙◌, List, [], ◌∷◌, ◌++◌, get_or, set, take,
  drop, length, length-set, take-set_le, drop-set_self, take-suc, take-append, length-take, arith,
  Bool-cases, inl, inr, if◌then◌else◌, ◌==◌,
}
use mathlib.Core.List.{append_assoc}
use Prim.Native.Nat.add
use mathlib.Core.Path.{subst}
use native.Mathlib.Nat.{zero-add, sub-zero, suc-sub-suc}
use native.Mathlib.Numerals.{add-one}
use repo_support_tools.Doubles.{Doubles}
use repo_support_tools.Timing.Results.{Value, Results, blank, shift, slower, scan, insertsort}

-- the entries in use
abbrev pub entries : Results → List Value
entries r = take r.count r.v

shift-cons : (w : Value) (v : List Value) (i k : ℕ) → shift (w ∷ v) (suc i) k ≡ w ∷ shift v i k
unfolding shift
shift-cons w v i zero = refl
shift-cons w v i (suc k) =
    rw add.suc (shift-cons w (set v (suc (i + k)) (get_or v (i + k) blank)) i k)

-- Shifting `k` entries up from the front and writing `x` there.
place-front :
    (v : List Value) (k : ℕ) (x : Value)
    → k < length v
    → set (shift v 0 k) 0 x ≡ x ∷ take k v ++ drop (suc k) v
unfolding shift
place-front [] zero x h = absurd (omega arith)
place-front (w ∷ v) zero x h = refl
place-front v (suc k) x h =
    rw
      (
        zero-add,
        place-front (set v (suc k) (get_or v k blank)) k x
            (omega (arith, length-set v (suc k) (get_or v k blank))),
        take-set_le v k (suc k) (get_or v k blank) (omega arith),
        drop-set_self v (suc k) (get_or v k blank) (omega arith),
        take-suc v k blank (omega arith),
      )
      (ap (◌∷◌ x) (sym (append_assoc (take k v) (get_or v k blank ∷ []) (drop (suc (suc k)) v))))

-- The same at an index: what the array is after the loop over `j` and the two stores behind it.
place :
    (v : List Value) (i k : ℕ) (x : Value)
    → i + k < length v
    → set (shift v i k) i x ≡ (take i v ++ x ∷ take k (drop i v)) ++ drop (suc (i + k)) v
place [] i k x h = absurd (omega arith)
place (w ∷ v) zero k x h = rw zero-add (place-front (w ∷ v) k x (omega arith))
place (w ∷ v) (suc i) k x h = rw (shift-cons, add.suc) (ap (◌∷◌ w) (place v i k x (omega arith)))

length-placed :
    (v : List Value) (i k : ℕ) (x : Value)
    → i + k ≤ length v
    → length (take i v ++ x ∷ take k (drop i v)) ≡ i + k + 1
length-placed v zero k x h = omega (arith, length-take k v)
length-placed [] (suc i) k x h = absurd (omega arith)
length-placed (w ∷ v) (suc i) k x h = omega (arith, length-placed v i k x (omega arith))

-- The entries in use after the stores.
take-place :
    (v : List Value) (i k : ℕ) (x : Value)
    → i + k < length v
    → take (i + k + 1) (set (shift v i k) i x) ≡ take i v ++ x ∷ take k (drop i v)
take-place v i k x h = rw (place v i k x h) (
    take-append (take i v ++ x ∷ take k (drop i v)) (drop (suc (i + k)) v)
      (length-placed v i k x (omega arith)))

module _ (f : Doubles) where
  -- The specification of `insertsort`: insertion before the first entry that is less slow.
  unfoldable pub insert : Value → List Value → List Value
  insert x [] = x ∷ []
  insert x (w ∷ ws) = if slower f x w then x ∷ w ∷ ws else w ∷ insert x ws

  scan-cons :
      (x w : Value) (v : List Value) (i k : ℕ) → scan f x (w ∷ v) (suc i) k ≡ suc (scan f x v i k)
  unfolding scan
  scan-cons x w v i zero = refl
  scan-cons x w v i (suc k) = elim (Bool-cases (slower f x (get_or v i blank))) [
    | inl e ↦ rw e
    | inr e ↦ rw (e, add-one, add-one) (scan-cons x w v (suc i) k)
  ]

  scan-le : (x : Value) (v : List Value) (i k : ℕ) → scan f x v i k ≤ i + k
  unfolding scan
  scan-le x v i zero = omega arith
  scan-le x v i (suc k) = ground (arith, scan-le x v (i + 1) k)

  scan-insert :
      (x : Value) (v : List Value) (k : ℕ)
      → k ≤ length v
      → take (scan f x v 0 k) v ++ (x ∷ take (k - scan f x v 0 k) (drop (scan f x v 0 k) v))
        ≡ insert x (take k v)
  unfolding scan insert
  scan-insert x v zero h = refl
  scan-insert x [] (suc k) h = absurd (omega arith)
  scan-insert x (w ∷ v) (suc k) h = elim (Bool-cases (slower f x w)) [
    | inl e ↦ rw (e, sub-zero)
    | inr e ↦
        rw (e, add-one, scan-cons x w v 0 k, suc-sub-suc)
          (ap (◌∷◌ w) (scan-insert x v k (omega arith)))
  ]

  -- While there is room, `insertsort` puts a non-zero measurement where the specification does, and
  -- leaves the size of the array.
  pub insertsort-insert :
      (u n : ℕ) (r : Results)
      → 0 < u
      → r.count < length r.v
      → entries (insertsort f u n r) ≡ insert (record { u = u; n = n }) (entries r)
  unfolding insertsort
  insertsort-insert u n r pos room = elim (Bool-cases (u == 0)) [
    | inl e ↦ absurd (ground arith)
    | inr e ↦
        let x : Value = record { u = u; n = n } in
        let i = scan f x r.v 0 r.count in
        let split : i + (r.count - i) ≡ r.count = omega (arith, scan-le x r.v 0 r.count) in
        rw e (
          subst (λ c. take (c + 1) (set (shift r.v i (r.count - i)) i x) ≡ insert x (entries r))
            split
            (take-place r.v i (r.count - i) x (omega arith)
              ∙ scan-insert x r.v r.count (omega arith)))
  ]

  pub count-insertsort : (u n : ℕ) (r : Results) → 0 < u → (insertsort f u n r).count ≡ r.count + 1
  unfolding insertsort
  count-insertsort u n r pos = ground arith

  length-shift : (v : List Value) (i k : ℕ) → length (shift v i k) ≡ length v
  unfolding shift
  length-shift v i zero = refl
  length-shift v i (suc k) =
      length-shift (set v (suc (i + k)) (get_or v (i + k) blank)) i k
      ∙ length-set v (suc (i + k)) (get_or v (i + k) blank)

  pub length-insertsort : (u n : ℕ) (r : Results) → length (insertsort f u n r).v ≡ length r.v
  unfolding insertsort
  length-insertsort u n r =
      let x : Value = record { u = u; n = n } in
      let i = scan f x r.v 0 r.count in
      elim (Bool-cases (u == 0)) [
        | inl e ↦ rw e
        | inr e ↦
            rw e (length-set (shift r.v i (r.count - i)) i x ∙ length-shift r.v i (r.count - i))
      ]
