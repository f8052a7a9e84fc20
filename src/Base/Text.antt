-- ===== src/Base/Text.antt =====
-- C strings as lists of their codes, without the terminator.
use Prim.Native.Char.{code}
use Prim.Native.String.{String}
use Prim.Native.Nat.{ℕ, ◌+◌, ◌-◌, ◌*◌, ◌%◌, ◌^◌}
use mathlib.Core.Bool.{Bool, true, false, ◌&&◌, ◌||◌}
use mathlib.Core.List.{List, [], ◌∷◌}
use repo_support_tools.Base.Tests.{leb, ◌==◌, if◌then◌else◌}

-- the codes of a literal
abbrev pub codes : String → List ℕ
codes String.[] = []
codes (String.◌∷◌ c s) = code c ∷ codes s

-- `!strncmp(s, p, strlen(p))`
abbrev pub starts_with : (p s : List ℕ) → Bool
starts_with [] s = true
starts_with (c ∷ p) [] = false
starts_with (c ∷ p) (d ∷ s) = (c == d) && starts_with p s

-- `!strcmp(s, t)`
abbrev pub same_text : (s t : List ℕ) → Bool
same_text [] [] = true
same_text [] (d ∷ t) = false
same_text (c ∷ s) [] = false
same_text (c ∷ s) (d ∷ t) = (c == d) && same_text s t

-- `s[strlen(s) - 1]`, and 0 for the empty string, which the code does not ask about
abbrev pub last_char : List ℕ → ℕ
last_char [] = 0
last_char (c ∷ []) = c
last_char (c ∷ d ∷ s) = last_char (d ∷ s)

abbrev pub isdigit : ℕ → Bool
isdigit c = leb 48 c && leb c 57

-- `atol`: blanks, a sign, digits. A number that no `long` holds is not defined in C.
abbrev pub value : ℕ → List ℕ → ℕ
value n [] = n
value n (c ∷ s) = value (n * 10 + (c - 48)) s

unfoldable pub leading : ℕ → List ℕ → ℕ
leading n [] = n
leading n (c ∷ s) = if isdigit c then leading (n * 10 + (c - 48)) s else n

unfoldable pub skip_blanks : List ℕ → List ℕ
skip_blanks [] = []
skip_blanks (c ∷ s) = if (c == 32) || (leb 9 c && leb c 13) then skip_blanks s else c ∷ s

-- as a `uint64`
unfoldable pub signed : List ℕ → ℕ
unfolding leading
signed [] = 0
signed (c ∷ s) =
    if c == b'-'
    then (2 ^ 64 - leading 0 s % 2 ^ 64) % 2 ^ 64
    else if c == b'+'
    then leading 0 s % 2 ^ 64
    else leading 0 (c ∷ s) % 2 ^ 64

unfoldable pub atol : List ℕ → ℕ
unfolding skip_blanks signed
atol s = signed (skip_blanks s)
