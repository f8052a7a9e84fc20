-- ===== src/Lmdd/Arguments/Accepted.antt =====
-- Which arguments `chkarg` of lmbench3/src/lmdd.c lets pass.
use mathlib.Core.Path.{subst}
use repo_support_tools.Base.{
  ℕ, ◌≡◌, ◌↔◌, ◌⊎◌, Bool, true, false, List, [], ◌∷◌, ◌++◌, get_or, ◌==◌, ==_iff, All, Bool-cases,
  inl, inr, refl, sym, ap, arith,
}
use repo_support_tools.Lmdd.Arguments.{pass_common, chkarg}

-- a text without an equals sign
abbrev pub IsKey : List ℕ → Type 0
IsKey = All (λ c. (c == b'=') ≡ false)

-- `arg` is a prefix of `cmd`, an equals sign and any text
pub record Abbreviates (arg cmd : List ℕ) : Type 0 where
  pub key : List ℕ
  pub text : List ℕ
  pub left : List ℕ
  pub argument : arg ≡ key ++ (b'=' ∷ text)
  pub command : cmd ≡ key ++ left

abbrev pub AbbreviatesSome : (commands : List (List ℕ)) (arg : List ℕ) → Type 0
AbbreviatesSome [] arg = ⊥
AbbreviatesSome (b ∷ bs) arg = Abbreviates arg b ⊎ AbbreviatesSome bs arg

-- what the loop over one command finds out
abbrev stops_at_equals : (a b : List ℕ) → Bool
stops_at_equals a b = get_or (pass_common a b) 0 0 == b'='

Abbreviates-cons : (c d : ℕ) (a b : List ℕ) → c ≡ d → Abbreviates a b → Abbreviates (c ∷ a) (d ∷ b)
Abbreviates-cons c d a b e h = record {
  key = c ∷ h.key;
  text = h.text;
  left = h.left;
  argument = ap (λ l. c ∷ l) h.argument;
  command = rw (sym e) (ap (λ l. c ∷ l) h.command);
}

Abbreviates-here : (c : ℕ) (a cmd : List ℕ) → (c == b'=') ≡ true → Abbreviates (c ∷ a) cmd
Abbreviates-here c a cmd e = record {
  key = [];
  text = a;
  left = cmd;
  argument = ap (λ x. x ∷ a) ((==_iff c b'=').0 e);
  command = refl;
}

stops-Abbreviates : (a b : List ℕ) → stops_at_equals a b ≡ true → Abbreviates a b
unfolding pass_common
stops-Abbreviates [] b h = absurd (let never : false ≡ true = h in cc)
stops-Abbreviates (c ∷ a) [] h = Abbreviates-here c a [] h
stops-Abbreviates (c ∷ a) (d ∷ b) h = elim (Bool-cases (c == d)) [
  | inl e ↦ Abbreviates-cons c d a b ((==_iff c d).0 e) (stops-Abbreviates a b (rw e at h))
  | inr e ↦ Abbreviates-here c a (d ∷ b) (rw e at h)
]

passes_key :
    (key text left : List ℕ)
    → IsKey (key ++ left)
    → stops_at_equals (key ++ (b'=' ∷ text)) (key ++ left) ≡ true
unfolding pass_common
passes_key [] text [] h = refl
passes_key [] text (d ∷ left) h =
    let differs : (b'=' == d) ≡ false = ground (arith, h.0) in rw differs refl
passes_key (c ∷ key) text left h =
    let same : (c == c) ≡ true = ground arith in rw same (passes_key key text left h.1)

Abbreviates-stops : (a b : List ℕ) → IsKey b → Abbreviates a b → stops_at_equals a b ≡ true
Abbreviates-stops a b k h =
    rw (h.argument, h.command) (passes_key h.key h.text h.left (subst IsKey h.command k))

-- `chkarg` lets an argument pass exactly if it is a prefix of some command, be it empty, and an
-- equals sign, with any text behind.
pub chkarg_iff :
    (commands : List (List ℕ)) (arg : List ℕ)
    → All IsKey commands
    → (chkarg commands arg ≡ true) ↔ AbbreviatesSome commands arg
unfolding chkarg
chkarg_iff [] arg keys = (λ h. absurd (cc), λ h. absurd h)
chkarg_iff (b ∷ bs) arg keys =
    let rest = chkarg_iff bs arg keys.1 in
    elim (Bool-cases (stops_at_equals arg b)) [
      | inl e ↦ rw e (λ h. inl (stops-Abbreviates arg b e), λ h. refl)
      | inr e ↦ rw e (
        λ h. inr (rest.0 h),
        λ h. elim h [
          | inl here ↦ absurd (let never = Abbreviates-stops arg b keys.0 here in cc)
          | inr later ↦ rest.1 later
        ],
      )
    ]
