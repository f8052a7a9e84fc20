-- ===== src/Examples/Memory.antt =====
-- The orders and chains of the memory benchmarks at concrete sizes.
use mathlib.Core.List.{Perm}
use repo_support_tools.Base.{
  ℕ, zero, suc, ◌+◌, ◌*◌, ◌%◌, ◌<◌, ◌≡◌, refl, List, [], ◌∷◌, true, false, arith, none, some,
  get_or, replicate, ◌^◌, ◌-◌,
}
use repo_support_tools.Bits.{count_bits, reverse_loop}
use repo_support_tools.Memory.Words.{words_initialize}
use repo_support_tools.Memory.Shuffle.{Environment, multiples}
use repo_support_tools.Memory.Shuffle.Distinct.{IsLayout}
use repo_support_tools.Memory.Chain.{Cells}
use repo_support_tools.Memory.Chain.Ring.{IsRing}
use repo_support_tools.Memory.State.{MemState, Environ, int_u64, int_rounds, count_pages}
use repo_support_tools.Memory.Line.{line_initialize}
use repo_support_tools.Memory.Line.Ring.{node}
use repo_support_tools.Memory.Line.Offsets.{IsEachLine, IsSpread}
use repo_support_tools.Memory.Line.Ready.{IsReady, some_line}
use repo_support_tools.Memory.Line.Whole.{line_initialize-IsRing}

words-eight : words_initialize true 8 4 ≡ some (0 ∷ 16 ∷ 8 ∷ 24 ∷ 4 ∷ 20 ∷ 12 ∷ 28 ∷ [])
unfolding words_initialize count_bits reverse_loop
words-eight = refl

words-three : words_initialize true 3 8 ≡ some (0 ∷ 8 ∷ 0 ∷ [])
unfolding words_initialize count_bits reverse_loop
words-three = refl

abbrev environment : Environment
environment = record { pid = 1000; ppid = 1; rand = λ k. 7919 * k + 17 }

abbrev blank_cells : Cells
blank_cells p = 0

-- Pages of 64 bytes with 4 lines, and 100 bytes to cover.
abbrev state : MemState
state = record {
  addr = none;
  base = 0;
  initialized = false;
  width = 1;
  len = 100;
  maxlen = 100;
  line = 16;
  pagesize = 64;
  nlines = 0;
  npages = 0;
  nwords = 0;
  lines = none;
  pages = none;
  words = none;
  p = replicate 16 0;
}

abbrev environ : Environ
environ = record {
  random = environment;
  r = 0;
  calls = 0;
  block = some 1000;
  pages_memory = true;
  lines_memory = true;
  words_memory = true;
}

state-IsReady : IsReady environ state 2 1000
state-IsReady = record {
  line_pos = omega arith;
  page = refl;
  len_pos = omega arith;
  len_le = omega arith;
  len_int = omega arith;
  page_int = omega arith;
  pages_int = omega arith;
  pointers = omega arith;
  has_block = refl;
  has_pages = refl;
  has_lines = refl;
}

line_initialize-IsRing_example :
    (after : MemState) × (cells' : Cells) × (pages : List ℕ) × (lines : List ℕ) × (line_initialize
        environ 0 state blank_cells
      ≡ some (after, cells'))
    × (after.initialized ≡ true)
    × (after.pages ≡ some pages)
    × (after.lines ≡ some lines)
    × (after.npages ≡ 2)
    × Perm pages (multiples 64 0 2)
    × IsLayout 64 2 pages
    × IsEachLine 4 16 lines
    × (get_or after.p 0 0 ≡ node pages lines 4 2 (some_line environ state 2 1000 state-IsReady) 0)
    × IsSpread (node pages lines 4 2 (some_line environ state 2 1000 state-IsReady)) 8
    × IsRing (node pages lines 4 2 (some_line environ state 2 1000 state-IsReady)) 8 cells'
line_initialize-IsRing_example =
    line_initialize-IsRing environ state 2 1000 state-IsReady blank_cells

-- An `int` does not hold 3 * 2^30 bytes: their pages are counted from a number near 2^64.
abbrev wide : ℕ
wide = 3 * 2 ^ 30

int_wraps :
    (int_u64 wide ≡ 2 ^ 64 - 2 ^ 30)
    × (int_u64 (2 ^ 32 + 5) ≡ 5)
    × (int_rounds wide ≡ 0)
    × (int_u64 (count_pages (int_u64 wide) 4096) ≡ 2 ^ 64 - 2 ^ 18)
unfolding int_u64 int_rounds count_pages
int_wraps = (refl, refl, refl, refl)

-- two pages of 8 lines, of which `line_test` with a line of 16 bytes visits 4
abbrev each_line : List ℕ
each_line = 0 ∷ 8 ∷ 16 ∷ 24 ∷ 32 ∷ 40 ∷ 48 ∷ 56 ∷ []

-- two pages of 32 bytes
abbrev two_pages : List ℕ
two_pages = 32 ∷ 0 ∷ []

two_pages-IsLayout : IsLayout 32 2 two_pages
two_pages-IsLayout = record { size = refl; multiple = aligned; distinct = different }
  where
    aligned : (x : ℕ) → x < 2 → get_or two_pages x 0 % 32 ≡ 0
    aligned zero h = refl
    aligned (suc zero) h = refl
    aligned (suc (suc x)) h = absurd (omega arith)

    different : (x y : ℕ) → x < 2 → y < 2 → get_or two_pages x 0 ≡ get_or two_pages y 0 → x ≡ y
    different zero zero h h' e = refl
    different (suc zero) (suc zero) h h' e = refl
    different zero (suc zero) h h' e = absurd (omega (arith, e))
    different (suc zero) zero h h' e = absurd (omega (arith, e))
    different (suc (suc x)) y h h' e = absurd (omega arith)
    different zero (suc (suc y)) h h' e = absurd (omega arith)
    different (suc zero) (suc (suc y)) h h' e = absurd (omega arith)

abbrev eight_words : List ℕ
eight_words = 0 ∷ 16 ∷ 8 ∷ 24 ∷ 4 ∷ 20 ∷ 12 ∷ 28 ∷ []
