-- ===== src/Lmdd/Settings/Checked.antt =====
-- What the checks of `main` of lmbench3/src/lmdd.c make sure of.
use repo_support_tools.Base.{
  ℕ, ◌/◌, ◌%◌, ◌≤◌, ◌≡◌, Bool, true, false, ◌&&◌, ◌||◌, not, List, ◌==◌, Bool-cases, or_false, inl,
  inr, refl, arith,
}
use repo_support_tools.Base.Int.{ℤ, pos, negsuc, ltb_ℤ, ◌≤ℤ◌}
use repo_support_tools.Lmdd.Settings.{
  Settings, Configured, accepted, refused, no_maximum, bad_argument, minimum_above_maximum,
  too_many_bufs, unaligned, too_small, no_memory, divides_by_zero, given, given_u64, clamp_max,
  lacks_max, nonzero, block, derive, check_block, check_settings, read_settings, all_pass,
  configure,
}

-- what the transfer relies on
pub record IsSound (s : Settings) : Type 0 where
  pub block_size : 4 ≤ block s
  pub buffers : s.nbufs ≤ℤ pos 10
  pub read_limits : s.rtmin ≤ℤ s.rtmax
  pub write_limits : s.wtmin ≤ℤ s.wtmax
  pub words : (given s.inpat || given s.outpat) ≡ true → block s % 4 ≡ 0

-- Accepted settings are sound, and nothing is refused for a minimum without a maximum.
abbrev pub Sound : Configured → Type 0
Sound (accepted s) = IsSound s
Sound (refused no_maximum) = ⊥
Sound (refused bad_argument) = Unit
Sound (refused minimum_above_maximum) = Unit
Sound (refused too_many_bufs) = Unit
Sound (refused unaligned) = Unit
Sound (refused too_small) = Unit
Sound (refused no_memory) = Unit
Sound (refused divides_by_zero) = Unit

words_lem : (b : Bool) (n : ℕ) → (b && not (n == 0)) ≡ false → b ≡ true → n ≡ 0
words_lem true n h e = ground arith
words_lem false n h e = absurd (cc)

at_most : (a b : ℤ) → ltb_ℤ a b ≡ false → b ≤ℤ a
at_most a b h = ground arith

check_block-Sound :
    (memory : Bool) (s : Settings)
    → s.nbufs ≤ℤ pos 10
    → s.rtmin ≤ℤ s.rtmax
    → s.wtmin ≤ℤ s.wtmax
    → Sound (check_block memory s)
unfolding check_block
check_block-Sound memory s nbufs reads writes =
    elim (Bool-cases ((given s.inpat || given s.outpat) && not (block s % 4 == 0))) [
      | inl e ↦ rw e tt
      | inr e ↦ elim (Bool-cases (block s / 4 == 0)) [
        | inl e' ↦ rw (e, e') tt
        | inr e' ↦ elim (Bool-cases memory) [
          | inr e'' ↦ rw (e, e', e'') tt
          | inl e'' ↦
              rw (e, e', e'')
                record {
                  block_size = ground arith;
                  buffers = nbufs;
                  read_limits = reads;
                  write_limits = writes;
                  words = words_lem (given s.inpat || given s.outpat) (block s % 4) e;
                }
        ]
      ]
    ]

check_settings-Sound :
    (memory : Bool) (s : Settings)
    → (lacks_max s.rtmax s.rtmin || lacks_max s.wtmax s.wtmin) ≡ false
    → Sound (check_settings memory s)
unfolding check_settings derive
check_settings-Sound memory s limits =
    elim (Bool-cases (ltb_ℤ s.rtmax s.rtmin || ltb_ℤ s.wtmax s.wtmin)) [
      | inl e ↦ rw (limits, e) tt
      | inr ordered ↦ elim (Bool-cases (ltb_ℤ (pos 10) s.nbufs)) [
        | inl e ↦ rw (limits, ordered, e) tt
        | inr few ↦ elim (Bool-cases (given_u64 s.size && (block s == 0))) [
          | inl e ↦ rw (limits, ordered, few, e) tt
          | inr divides ↦
              let both = or_false (ltb_ℤ s.rtmax s.rtmin) (ltb_ℤ s.wtmax s.wtmin) ordered in
              rw (limits, ordered, few, divides)
                (check_block-Sound memory (derive s) (at_most (pos 10) s.nbufs few)
                  (at_most s.rtmax s.rtmin both.0) (at_most s.wtmax s.wtmin both.1))
        ]
      ]
    ]

nonzero-clamp_max : (x : ℤ) → nonzero (clamp_max x) ≡ true
nonzero-clamp_max (pos n) = ground arith
nonzero-clamp_max (negsuc n) = ground arith

has_max : (x n : ℤ) → lacks_max (clamp_max x) n ≡ false
has_max x n = rw (nonzero-clamp_max x) (ground arith)

-- Whatever the arguments are, settings that lmdd accepts have blocks of at least 4 bytes, whole words
-- where patterns are used, at most 10 buffers, and limits in order; and no arguments are refused with
-- the message that a minimum needs a maximum.
pub configure-Sound :
    (address : ℕ → ℕ) (av : List (List ℕ)) (memory : Bool) → Sound (configure address av memory)
unfolding configure read_settings
configure-Sound address av memory = elim (Bool-cases (all_pass av)) [
  | inr e ↦ rw e tt
  | inl e ↦
      rw e (
        check_settings-Sound memory (read_settings address av) (rw (has_max _ _, has_max _ _) refl))
]
