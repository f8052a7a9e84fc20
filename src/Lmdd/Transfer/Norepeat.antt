-- ===== src/Lmdd/Transfer/Norepeat.antt =====
-- The first write to the array `norepeat` of lmdd (lmbench3/src/lmdd.c).
use repo_support_tools.Base.{
  ℕ, ◌-◌, ◌≡◌, Bool, true, false, ◌&&◌, List, ◌∷◌, refl, ap, ◌||◌, Bool-cases, inl, inr, ◌==◌,
}
use repo_support_tools.Base.Int.{ℤ, negsuc}
use repo_support_tools.Lmdd.Settings.{Settings, given_u64, block, sub_u64}
use repo_support_tools.Lmdd.Transfer.{
  Transfer, Round, Part, ◌>>=◌, next_round, remember_off, one_round, more, faults, been_there,
  remember, draw_until, at_ends, other_end, end_place, settle_end, range_place, settle_range,
  anywhere, choose_offset, count_down, transfer, first_state,
}

module _ (c : Settings) (input output : ℤ) where
  draw_first :
      (place : ℕ → ℕ) (range : ℕ) (d : ℕ → ℕ) (ds : List (ℕ → ℕ)) (s : Transfer)
      → s.norepeats ≡ negsuc 0
      → draw_until c input output place range (d ∷ ds) s ≡ more (record s { off = place (d range) })
  unfolding draw_until
  draw_first place range d ds s start =
      let unseen : been_there s (place (d range)) ≡ false = rw (start, been_there) refl in
      let fresh : (c.norepeat && been_there s (place (d range))) ≡ false =
        and_false c.norepeat _ unseen in
      rw fresh refl
    where
      and_false : (a b : Bool) → b ≡ false → (a && b) ≡ false
      and_false true b h = h
      and_false false b h = refl

  remember-faults : (off : ℕ) (s : Transfer) → s.norepeats ≡ negsuc 0 → remember off s ≡ faults
  unfolding remember
  remember-faults off s start = rw start refl

  drawn_faults :
      (place : ℕ → ℕ) (range : ℕ) (d : ℕ → ℕ) (ds : List (ℕ → ℕ)) (s : Transfer)
      (k : Transfer → Part)
      → c.norepeat ≡ true
      → s.norepeats ≡ negsuc 0
      → (draw_until c input output place range (d ∷ ds) s >>= remember_off c input output >>= k)
        ≡ faults
  drawn_faults place range d ds s k on start =
      rw (draw_first place range d ds s start, on) (ap (λ p. p >>= k) (remember-faults _ _ start))

  module _ (d : ℕ → ℕ) (ds : List (ℕ → ℕ)) (s : Transfer) (on : c.norepeat ≡ true)
      (start : s.norepeats ≡ negsuc 0) where
    at_ends-faults : at_ends c input output (d ∷ ds) s ≡ faults
    unfolding at_ends
    at_ends-faults =
        drawn_faults (end_place c input output (other_end c input output s)) c.last d ds
          (record s { far = other_end c input output s }) (settle_end c input output) on start

    anywhere-faults : anywhere c input output (d ∷ ds) s ≡ faults
    unfolding anywhere
    anywhere-faults =
        drawn_faults (range_place c input output) (sub_u64 c.size (block c)) d ds s
          (settle_range c input output) on start

    choose_offset-faults :
        (given_u64 c.last || given_u64 c.rand) ≡ true
        → choose_offset c input output (d ∷ ds) s ≡ faults
    unfolding choose_offset
    choose_offset-faults random = elim (Bool-cases (given_u64 c.last)) [
      | inl e ↦ rw e at_ends-faults
      | inr e ↦ let r : given_u64 c.rand ≡ true = rw e at random in rw (e, r) anywhere-faults
    ]

  one_round-faults :
      (e : Round) (d : ℕ → ℕ) (ds : List (ℕ → ℕ)) (s t : Transfer)
      → e.draws ≡ d ∷ ds
      → c.norepeat ≡ true
      → (given_u64 c.last || given_u64 c.rand) ≡ true
      → t.norepeats ≡ negsuc 0
      → count_down c input output s ≡ more t
      → one_round c input output e s ≡ faults
  unfolding one_round
  one_round-faults e d ds s t drawn on random start counted =
      rw (counted, drawn, choose_offset-faults d ds t on start random) refl

  count_down-more :
      (s : Transfer)
      → (s.count == 0) ≡ false
      → (t : Transfer) × (count_down c input output s ≡ more t) × (t.norepeats ≡ s.norepeats)
  unfolding count_down
  count_down-more s some_block = elim (Bool-cases (given_u64 c.count)) [
    | inl e ↦ (record s { count = s.count - 1 }, rw (e, some_block) refl, refl)
    | inr e ↦ (s, rw e refl, refl)
  ]

  -- With "norepeat=" and random offsets, the first round writes before the start of the array of
  -- offsets, whatever is drawn: no transfer of at least one block gets past it.
  pub transfer-norepeat :
      (e : Round) (es : List Round) (d : ℕ → ℕ) (ds : List (ℕ → ℕ))
      → e.draws ≡ d ∷ ds
      → c.norepeat ≡ true
      → (given_u64 c.last || given_u64 c.rand) ≡ true
      → (c.count == 0) ≡ false
      → transfer c input output (e ∷ es) (first_state c input output) ≡ faults
  unfolding transfer first_state
  transfer-norepeat e es d ds drawn on random some_block =
      let counted = count_down-more (first_state c input output) some_block in
      ap (next_round (transfer c input output es)) (
        one_round-faults e d ds (first_state c input output) counted.0 drawn on random counted.2
          counted.1)
