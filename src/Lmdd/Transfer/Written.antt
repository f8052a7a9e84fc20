-- ===== src/Lmdd/Transfer/Written.antt =====
-- The blocks that lmdd (lmbench3/src/lmdd.c) writes, and what a plain copy asks of its settings and of
-- its rounds.
use repo_support_tools.Base.{
  ℕ, ◌/◌, ◌<◌, ◌≡◌, Bool, true, false, List, [], ◌∷◌, ◌++◌, take, refl, ap, ◌∙◌, ◌==◌,
  if◌then◌else◌,
}
use mathlib.Core.List.{append-nil}
use repo_support_tools.Base.Int.{ℤ, pos}
use repo_support_tools.Lmdd.Settings.{Settings, given, given_u64, nonzero}
use repo_support_tools.Lmdd.Transfer.{
  Action, writes, seeks_input, seeks_output, prints_offset, slow_read, slow_write, differs,
  short_write, hash_mark, Transfer, Round, Part, finishes, log, when, has_input, has_output,
}

-- the words of the blocks that have been written
abbrev pub written : List Action → List (List ℕ)
written [] = []
written (writes words moved ∷ xs) = take (moved / 4) words ∷ written xs
written (seeks_input _ ∷ xs) = written xs
written (seeks_output _ ∷ xs) = written xs
written (prints_offset _ ∷ xs) = written xs
written (slow_read _ ∷ xs) = written xs
written (slow_write _ ∷ xs) = written xs
written (differs _ _ _ ∷ xs) = written xs
written (short_write _ _ ∷ xs) = written xs
written (hash_mark ∷ xs) = written xs

pub written-append : (xs ys : List Action) → written (xs ++ ys) ≡ written xs ++ written ys
written-append [] ys = refl
written-append (writes words moved ∷ xs) ys =
    ap (λ ws. take (moved / 4) words ∷ ws) (written-append xs ys)
written-append (seeks_input _ ∷ xs) ys = written-append xs ys
written-append (seeks_output _ ∷ xs) ys = written-append xs ys
written-append (prints_offset _ ∷ xs) ys = written-append xs ys
written-append (slow_read _ ∷ xs) ys = written-append xs ys
written-append (slow_write _ ∷ xs) ys = written-append xs ys
written-append (differs _ _ _ ∷ xs) ys = written-append xs ys
written-append (short_write _ _ ∷ xs) ys = written-append xs ys
written-append (hash_mark ∷ xs) ys = written-append xs ys

-- A round that copies `words`: `read` gives so many bytes, and `write` takes them all.
pub record Copies (e : Round) (words : List ℕ) : Type 0 where
  pub bytes : ℕ
  pub some_bytes : (bytes == 0) ≡ false
  pub reads : e.moved ≡ pos bytes
  pub takes : e.moved2 ≡ pos bytes
  pub gives : (old : List ℕ) → take (bytes / 4) (e.arrives old) ≡ words

abbrev pub AllCopy : List Round → List (List ℕ) → Type 0
AllCopy [] [] = Unit
AllCopy [] (w ∷ ws) = ⊥
AllCopy (e ∷ es) [] = ⊥
AllCopy (e ∷ es) (w ∷ ws) = Copies e w × AllCopy es ws

-- settings for a copy in order: no random offsets, patterns, touching, forks or padding read
pub record IsPlain (c : Settings) (input output : ℤ) : Type 0 where
  pub from : has_input c input output ≡ true
  pub to : has_output c input output ≡ true
  pub no_last : given_u64 c.last ≡ false
  pub no_rand : given_u64 c.rand ≡ false
  pub no_inpat : given c.inpat ≡ false
  pub no_outpat : given c.outpat ≡ false
  pub no_touch : c.touch ≡ false
  pub no_fork : given c.fork ≡ false
  pub no_padding : nonzero c.pad_in ≡ false
  pub has_count : given_u64 c.count ≡ true
  pub buffers : ℕ
  pub some_buffers : 0 < buffers
  pub has_buffers : c.nbufs ≡ pos buffers

-- what the rest of a round sees of a state
abbrev pub Alike : Transfer → Transfer → Type 0
Alike s t =
    (t.bufs ≡ s.bufs)
    × (t.nextbuf ≡ s.nextbuf)
    × (t.pad_in ≡ s.pad_in)
    × (t.count ≡ s.count)
    × (written t.actions ≡ written s.actions)

pub Alike-if : (b : Bool) (x y s : Transfer) → Alike s x → Alike s y → Alike s (if b then x else y)
Alike-if true x y s h k = h
Alike-if false x y s h k = k

pub log-Alike :
    (b : Bool) (a : Action) (s : Transfer) → written (a ∷ []) ≡ [] → Alike s (log (when b a) s)
log-Alike true a s h = (
  refl,
  refl,
  refl,
  refl,
  written-append s.actions (a ∷ [])
      ∙ ap (λ ws. written s.actions ++ ws) h
      ∙ append-nil (written s.actions),
)
log-Alike false a s h = (refl, refl, refl, refl, ap written (append-nil s.actions))

-- a whole transfer that ends with `done`, and what it has written
abbrev pub FinishesWith : (blocks : List (List ℕ)) → Part → Type 0
FinishesWith blocks p = (t : Transfer) × (p ≡ finishes t) × (written t.actions ≡ blocks)
