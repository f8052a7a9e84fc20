-- ===== src/Options/Progress.antt =====
-- The position of `getopt` (lmbench3/src/getopt.c) in its arguments.
use repo_support_tools.Base.{
  ℕ, ◌+◌, ◌<◌, ◌≡◌, ◌⊎◌, Bool, true, false, ◌||◌, not, List, [], ◌∷◌, length, leb, ◌==◌, All,
  Bool-cases, inl, inr, arith, refl,
}
use repo_support_tools.Options.{
  Options, Answer, eof, letter, question, aborted, char_at, arg, begin, find_letter, stands_alone,
  next_letter, take_argument, handle, at_end, getopt,
}

module _ (av : List (List ℕ)) where
  -- `n` is at the first letter of a word or at a character of the present word
  abbrev pub IsPlaced : Options → Type 0
  IsPlaced s = (s.n ≡ 1) ⊎ ((char_at (arg av s.optind) s.n == 0) ≡ false)

  -- what a call that does not abort leaves
  abbrev pub Places : Answer × Options → Type 0
  Places (aborted, s) = ⊥
  Places (eof, s) = IsPlaced s
  Places (letter c, s) = IsPlaced s
  Places (question, s) = IsPlaced s

  take_argument-Places :
      (o next : ℕ) (s : Options)
      → (next == 59) ≡ false
      → IsPlaced s
      → Places (take_argument av o next s)
  unfolding take_argument
  take_argument-Places o next s no_semicolon h =
      elim (Bool-cases (char_at (arg av s.optind) (s.n + 1) == 0)) [
        | inr e ↦ rw e (inl refl)
        | inl e ↦ elim (Bool-cases (next == 124)) [
          | inl bar ↦ rw (e, bar) (inl refl)
          | inr no_bar ↦
              elim (Bool-cases
                ((s.optind + 1 == length av) || (char_at (arg av (s.optind + 1)) 0 == 45))) [
                  | inl missing ↦ rw (e, no_bar, no_semicolon, missing) h
                  | inr there ↦ rw (e, no_bar, no_semicolon, there) (inl refl)
                ]
        ]
      ]

  next_letter-IsPlaced : (s : Options) → IsPlaced (next_letter (arg av s.optind) s)
  unfolding next_letter
  next_letter-IsPlaced s = elim (Bool-cases (char_at (arg av s.optind) (s.n + 1) == 0)) [
    | inl e ↦ rw e (inl refl)
    | inr e ↦ rw e (inr e)
  ]

  handle-Places :
      (opts : List ℕ) (s : Options)
      → All (λ o. (o == 59) ≡ false) opts
      → IsPlaced s
      → Places (handle av opts s)
  unfolding handle
  handle-Places [] s h p = p
  handle-Places (o ∷ rest) s h p = elim (Bool-cases (stands_alone (char_at rest 0))) [
    | inl e ↦ rw e (next_letter-IsPlaced s)
    | inr e ↦ rw e (take_argument-Places o (char_at rest 0) s (no_semicolon rest h.1) p)
  ]
    where
      no_semicolon :
          (rest : List ℕ) → All (λ o. (o == 59) ≡ false) rest → (char_at rest 0 == 59) ≡ false
      no_semicolon [] k = refl
      no_semicolon (r ∷ rs) k = k.0

  find_letter-All :
      (P : ℕ → Type 0) (opts : List ℕ) (c : ℕ) → All P opts → All P (find_letter opts c)
  unfolding find_letter
  find_letter-All P [] c h = tt
  find_letter-All P (o ∷ opts) c h = elim (Bool-cases (o == c)) [
    | inl e ↦ rw e h
    | inr e ↦ rw e (find_letter-All P opts c h.1)
  ]

  or_right : (a b : Bool) → (a || b) ≡ false → b ≡ false
  or_right true b h = absurd (cc)
  or_right false b h = h

  nonzero :
      (s : Options)
      → at_end av s ≡ false
      → IsPlaced s
      → (char_at (arg av s.optind) s.n == 0) ≡ false
  nonzero s going (inr h) = h
  nonzero s going (inl first) = rw first (
      or_right (leb (length av) s.optind || not (char_at (arg av s.optind) 0 == 45))
        (char_at (arg av s.optind) 1 == 0) going)

  begin-IsPlaced : (s : Options) → (s.optind ≡ 0) ⊎ IsPlaced s → IsPlaced (begin s)
  unfolding begin
  begin-IsPlaced s (inl start) =
      let fresh : (s.optind == 0) ≡ true = rw start refl in rw fresh (inl refl)
  begin-IsPlaced s (inr h) = elim (Bool-cases (s.optind == 0)) [
    | inl e ↦ rw e (inl refl)
    | inr e ↦ rw e h
  ]

  -- If no option letter is followed by a semicolon, the assertion of `getopt` holds in every call of
  -- a loop over the options: from a position at the start, at the first letter of a word or at a
  -- character of it, a call does not abort and leaves such a position.
  pub getopt-Places :
      (opts : List ℕ) (s : Options)
      → All (λ o. (o == 59) ≡ false) opts
      → (s.optind ≡ 0) ⊎ IsPlaced s
      → Places (getopt av opts s)
  unfolding getopt
  getopt-Places opts s h p =
      let placed = begin-IsPlaced s p in
      elim (Bool-cases (at_end av (begin s))) [
        | inl e ↦ rw e placed
        | inr e ↦
            rw (e, nonzero (begin s) e placed)
              (handle-Places _ (begin s) (find_letter-All _ opts _ h) placed)
      ]

  -- what a call with an option letter has moved on by, from the position `s`
  abbrev pub MovesFrom : Options → Answer × Options → Type 0
  MovesFrom s (letter c, s') = (s.optind < s'.optind) ⊎ ((s'.optind ≡ s.optind) × (s'.n ≡ s.n + 1))
  MovesFrom s (eof, s') = s' ≡ s
  MovesFrom s (question, s') = Unit
  MovesFrom s (aborted, s') = s' ≡ s

  next_letter-MovesFrom :
      (o : ℕ) (s : Options) → MovesFrom s (letter o, next_letter (arg av s.optind) s)
  unfolding next_letter
  next_letter-MovesFrom o s = elim (Bool-cases (char_at (arg av s.optind) (s.n + 1) == 0)) [
    | inl e ↦ rw e (inl (omega arith))
    | inr e ↦ rw e (inr (refl, refl))
  ]

  take_argument-MovesFrom : (o next : ℕ) (s : Options) → MovesFrom s (take_argument av o next s)
  unfolding take_argument
  take_argument-MovesFrom o next s = elim (Bool-cases (char_at (arg av s.optind) (s.n + 1) == 0)) [
    | inr e ↦ rw e (inl (omega arith))
    | inl e ↦ elim (Bool-cases (next == 124)) [
      | inl bar ↦ rw (e, bar) (inl (omega arith))
      | inr no_bar ↦ elim (Bool-cases (next == 59)) [
        | inl semicolon ↦ rw (e, no_bar, semicolon) tt
        | inr plain ↦
            elim (Bool-cases
              ((s.optind + 1 == length av) || (char_at (arg av (s.optind + 1)) 0 == 45))) [
                | inl missing ↦ rw (e, no_bar, plain, missing) tt
                | inr there ↦ rw (e, no_bar, plain, there) (inl (omega arith))
              ]
      ]
    ]
  ]

  handle-MovesFrom : (opts : List ℕ) (s : Options) → MovesFrom s (handle av opts s)
  unfolding handle
  handle-MovesFrom [] s = tt
  handle-MovesFrom (o ∷ rest) s = elim (Bool-cases (stands_alone (char_at rest 0))) [
    | inl e ↦ rw e (next_letter-MovesFrom o s)
    | inr e ↦ rw e (take_argument-MovesFrom o (char_at rest 0) s)
  ]

  -- A call that returns an option has moved on from the position where it began, to a later word or
  -- to the next character of the same word; a call that returns EOF stays there.
  pub getopt-MovesFrom : (opts : List ℕ) (s : Options) → MovesFrom (begin s) (getopt av opts s)
  unfolding getopt
  getopt-MovesFrom opts s = elim (Bool-cases (at_end av (begin s))) [
    | inl e ↦ rw e refl
    | inr e ↦ elim (Bool-cases (char_at (arg av (begin s).optind) (begin s).n == 0)) [
      | inl stuck ↦ rw (e, stuck) refl
      | inr there ↦ rw (e, there) (handle-MovesFrom _ (begin s))
    ]
  ]
