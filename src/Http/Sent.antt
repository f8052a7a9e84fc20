-- ===== src/Http/Sent.antt =====
-- The bytes that lmhttp.c of lmbench3/src sends.
use mathlib.Core.List.{append_assoc, append-nil}
use repo_support_tools.Base.{
  ℕ, ◌≤◌, ◌≡◌, true, false, Bool-cases, inl, inr, Option, none, some, List, [], ◌∷◌, ◌++◌, length,
  take, drop, append_take-drop, length-drop, All, ◌==◌, refl, sym, ap, ◌∙◌, arith,
}
use repo_support_tools.Http.{mmap_rdwr}

-- the writes in which at least a byte is taken
abbrev pub Takes : Option ℕ → Type 0
Takes none = ⊥
Takes (some n) = 1 ≤ n

append_nothing : (l : List ℕ) → (length l == 0) ≡ true → l ≡ []
append_nothing [] h = refl
append_nothing (x ∷ xs) h = absurd (ground arith)

-- Whatever the writes take, `mmap_rdwr` sends the bytes from the first on, in order.
mmap_rdwr-prefix :
    (ws : List (Option ℕ)) (file : List ℕ)
    → (mmap_rdwr ws file).sent ++ (mmap_rdwr ws file).left ≡ file
unfolding mmap_rdwr
mmap_rdwr-prefix [] file = refl
mmap_rdwr-prefix (none ∷ ws) file = refl
mmap_rdwr-prefix (some n ∷ ws) file = elim (Bool-cases (length (drop n file) == 0)) [
  | inl e ↦ rw (e) (append_take-drop n file)
  | inr e ↦
      let rest = mmap_rdwr ws (drop n file) in
      rw (e) (
        append_assoc (take n file) rest.sent rest.left
        ∙ ap (λ l. take n file ++ l) (mmap_rdwr-prefix ws (drop n file))
        ∙ append_take-drop n file)
]

mmap_rdwr-ends :
    (ws : List (Option ℕ)) (file : List ℕ)
    → All Takes ws
    → length file ≤ length ws
    → 1 ≤ length ws
    → ((mmap_rdwr ws file).left ≡ []) × ((mmap_rdwr ws file).failed ≡ false)
unfolding mmap_rdwr
mmap_rdwr-ends [] file takes enough some' = absurd (omega arith)
mmap_rdwr-ends (none ∷ ws) file takes enough some' = absurd takes.0
mmap_rdwr-ends (some n ∷ ws) file takes enough some' =
    let fewer = length-drop n file in
    let more : 1 ≤ n = takes.0 in
    elim (Bool-cases (length (drop n file) == 0)) [
      | inl e ↦ rw (e) (append_nothing (drop n file) e, refl)
      | inr e ↦
          let some'' : 1 ≤ length (drop n file) = ground arith in
          rw (e) (mmap_rdwr-ends ws (drop n file) takes.1 (omega arith) (omega arith))
    ]

-- Given as many writes as the file has bytes, and one at least, that each take a byte at least,
-- `mmap_rdwr` sends the whole file, and no write has failed.
pub mmap_rdwr-sends :
    (ws : List (Option ℕ)) (file : List ℕ)
    → All Takes ws
    → length file ≤ length ws
    → 1 ≤ length ws
    → ((mmap_rdwr ws file).sent ≡ file) × ((mmap_rdwr ws file).failed ≡ false)
mmap_rdwr-sends ws file takes enough some' =
    let r = mmap_rdwr ws file in
    let ends = mmap_rdwr-ends ws file takes enough some' in
    (
      sym (append-nil r.sent) ∙ ap (λ l. r.sent ++ l) (sym ends.0) ∙ mmap_rdwr-prefix ws file,
      ends.1,
    )
