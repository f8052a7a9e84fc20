-- ===== src/Lmdd/Transfer/Pattern.antt =====
-- The pattern that lmdd (lmbench3/src/lmdd.c) writes and checks: "opat=" and "ipat=".
use repo_support_tools.Base.{
  ℕ, zero, suc, ◌+◌, ◌≤◌, ◌<◌, ◌≡◌, List, length, get_or, set, refl, sym, ◌∙◌, ap, arith, ==_iff,
  get_or-set_self, get_or-set_ne, length-set, dec_lt,
}
use repo_support_tools.Base.Int.{ℤ}
use repo_support_tools.Lmdd.Settings.{Settings}
use repo_support_tools.Lmdd.Transfer.{Transfer, more, pattern_word, check_words, fill_words}

fill_words-length :
    (off foo cnt : ℕ) (buf : List ℕ) → length (fill_words off foo cnt buf) ≡ length buf
unfolding fill_words
fill_words-length off foo zero buf = refl
fill_words-length off foo (suc cnt) buf =
    fill_words-length off (foo + 1) cnt _ ∙ length-set buf foo _

-- words before the first one that is filled stay
fill_words-before :
    (off foo cnt j : ℕ) (buf : List ℕ)
    → j < foo
    → get_or (fill_words off foo cnt buf) j 0 ≡ get_or buf j 0
unfolding fill_words
fill_words-before off foo zero j buf h = refl
fill_words-before off foo (suc cnt) j buf h =
    fill_words-before off (foo + 1) cnt j _ (omega arith)
    ∙ get_or-set_ne buf foo j _ 0 (omega arith)

fill_words-word :
    (off foo cnt j : ℕ) (buf : List ℕ)
    → foo ≤ j
    → j < foo + cnt
    → j < length buf
    → get_or (fill_words off foo cnt buf) j 0 ≡ pattern_word off j
unfolding fill_words
fill_words-word off foo zero j buf lo hi room = absurd (omega arith)
fill_words-word off foo (suc cnt) j buf lo hi room = elim (dec_lt foo j) [
  | yes later ↦
      fill_words-word off (foo + 1) cnt j _ (omega arith) (omega arith)
        (omega (arith, length-set buf foo (pattern_word off foo)))
  | no here ↦
      let same : foo ≡ j = omega arith in
      fill_words-before off (foo + 1) cnt j _ (omega arith)
      ∙ ap (λ i. get_or (set buf foo (pattern_word off foo)) i 0) (sym same)
      ∙ get_or-set_self buf foo (pattern_word off foo) 0 (omega arith)
      ∙ ap (pattern_word off) same
]

module _ (c : Settings) (input output : ℤ) where
  check_words-pattern :
      (buf : List ℕ) (foo cnt : ℕ) (s : Transfer)
      → ((j : ℕ) → foo ≤ j → j < foo + cnt → get_or buf j 0 ≡ pattern_word s.off j)
      → check_words c input output buf foo cnt s ≡ more s
  unfolding check_words
  check_words-pattern buf foo zero s h = refl
  check_words-pattern buf foo (suc cnt) s h =
      let right = (==_iff _ _).1 (h foo (omega arith) (omega arith)) in
      rw right
        (check_words-pattern buf (foo + 1) cnt s (λ j lo hi. h j (omega arith) (omega arith)))

  -- A block that has been filled with the pattern for an offset passes the check for this offset:
  -- nothing is reported, and the transfer goes on unchanged.
  pub check_words-fill_words :
      (buf : List ℕ) (cnt : ℕ) (s : Transfer)
      → cnt ≤ length buf
      → check_words c input output (fill_words s.off 0 cnt buf) 0 cnt s ≡ more s
  check_words-fill_words buf cnt s room =
      check_words-pattern (fill_words s.off 0 cnt buf) 0 cnt s
        λ j lo hi. fill_words-word s.off 0 cnt j buf lo hi (omega arith)
