-- ===== src/Lmdd/Transfer/Copy.antt =====
-- What lmdd (lmbench3/src/lmdd.c) writes when it neither makes nor checks patterns: what it has read.
use repo_support_tools.Base.{
  ℕ, ◌*◌, ◌%◌, ◌^◌, length-replicate, ◌≡◌, Bool, true, false, List, [], ◌∷◌, ◌++◌, length, refl,
  sym, ap, ◌∙◌, arith, Bool-cases, inl, inr,
}
use mathlib.Core.List.{append_assoc, append-nil}
use repo_support_tools.Base.Int.{ℤ}
use repo_support_tools.Lmdd.Settings.{Settings, given_u64, block}
use repo_support_tools.Lmdd.Transfer.{
  seeks_input, seeks_output, prints_offset, Transfer, Round, when, count_down, one_round, transfer,
  first_state,
}
use repo_support_tools.Lmdd.Transfer.Written.{written, AllCopy, IsPlain}
use repo_support_tools.Lmdd.Transfer.Written.{FinishesWith}
use repo_support_tools.Lmdd.Transfer.Rounds.{IsReady, one_round-plain}

module _ (c : Settings) (input output : ℤ) (plain : IsPlain c input output) where
  transfer_from :
      (es : List Round) (blocks : List (List ℕ)) (last : Round) (s : Transfer)
      → AllCopy es blocks
      → IsReady c input output plain s
      → s.count ≡ length es
      → FinishesWith (written s.actions ++ blocks) (transfer c input output (es ++ (last ∷ [])) s)
  unfolding transfer one_round count_down
  transfer_from [] [] last s copies ready counted =
      (s, rw (plain.has_count, counted) refl, sym (append-nil (written s.actions)))
  transfer_from [] (w ∷ ws) last s copies ready counted = absurd copies
  transfer_from (e ∷ es) [] last s copies ready counted = absurd copies
  transfer_from (e ∷ es) (w ∷ ws) last s copies ready counted =
      let first =
        one_round-plain c input output plain e w s copies.0 ready (ground (arith, counted)) in
      let rest =
        transfer_from es ws last first.0 copies.1 first.2 (omega (arith, first.3, counted)) in
      (
        rest.0,
        rw (first.1) rest.1,
        rest.2 ∙ ap (λ b. b ++ ws) first.4 ∙ append_assoc (written s.actions) (w ∷ []) ws,
      )

  first_state-IsReady : IsReady c input output plain (first_state c input output)
  unfolding first_state
  first_state-IsReady = (
    rw plain.has_buffers (length-replicate plain.buffers _),
    plain.some_buffers,
    plain.no_padding,
  )

  first_state-written : written (first_state c input output).actions ≡ []
  unfolding first_state
  first_state-written = elim (Bool-cases (given_u64 c.skip)) [
    | inr e ↦ rw e refl
    | inl e ↦ rw (e, plain.from, plain.to) (only_seeks c.poff)
  ]
    where
      only_seeks :
          (b : Bool)
          → written (
              seeks_input (c.skip * block c % 2 ^ 64)
              ∷ seeks_output (c.skip * block c % 2 ^ 64)
              ∷ when b (prints_offset (c.skip * block c % 2 ^ 64)))
            ≡ []
      only_seeks true = refl
      only_seeks false = refl

  -- A plain transfer of a count of blocks, whose reads each give some bytes and whose writes take all
  -- they are given, finishes in the round behind the count, and the words of the blocks that it has
  -- written are those that it has read, in order. Plain is: an input and an output, some buffers, no
  -- random offsets, patterns, touching, forks or padding read. A round may report slow times and
  -- offsets.
  pub transfer-FinishesWith :
      (es : List Round) (blocks : List (List ℕ)) (last : Round)
      → AllCopy es blocks
      → c.count ≡ length es
      → FinishesWith blocks
          (transfer c input output (es ++ (last ∷ [])) (first_state c input output))
  unfolding first_state
  transfer-FinishesWith es blocks last copies counted =
      let all =
        transfer_from es blocks last (first_state c input output) copies first_state-IsReady
          counted in
      (all.0, all.1, all.2 ∙ ap (λ ws. ws ++ blocks) first_state-written)
