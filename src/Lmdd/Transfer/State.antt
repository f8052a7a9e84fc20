-- ===== src/Lmdd/Transfer/State.antt =====
-- The state of the loop of lmdd (lmbench3/src/lmdd.c), what the system answers in a round, and how the
-- parts of a round end.
use repo_support_tools.Base.{ℕ, Bool, List, [], ◌∷◌, ◌++◌, if◌then◌else◌}
use repo_support_tools.Base.Int.{ℤ}

pub data Action : Type 0 where
  seeks_input : ℕ → Action
  seeks_output : ℕ → Action
  prints_offset : ℕ → Action
  slow_read : ℕ → Action
  slow_write : ℕ → Action
  differs : (offset want got : ℕ) → Action
  writes : List ℕ → ℕ → Action
  short_write : (moved moved2 : ℤ) → Action
  hash_mark : Action

-- The variables of the loop. `far` is the static variable `start`, `seen` the array `norepeat`.
pub record Transfer : Type 0 where
  pub bufs : List (List ℕ)
  pub nextbuf : ℕ
  pub pad_in : ℤ
  pub count : ℕ
  pub off : ℕ
  pub far : ℕ
  pub norepeats : ℤ
  pub seen : List ℕ
  pub int_count : ℕ
  pub rthist : List ℕ
  pub wthist : List ℕ
  pub misses : ℤ
  pub actions : List Action

-- What the system answers in a round. A draw gives `drand48() * x` as a `uint64`, for the `x` that
-- it is applied to; `arrives` are the words that `read` leaves in the buffer.
pub record Round : Type 0 where
  pub draws : List (ℕ → ℕ)
  pub moved : ℤ
  pub arrives : List ℕ → List ℕ
  pub read_mics : ℕ
  pub child : Bool
  pub moved2 : ℤ
  pub write_mics : ℕ

-- How a part of a round ends: it goes on, it goes to the next round (`continue`), it calls `done`,
-- the child of a fork exits; or it leaves its memory, or the draws do not suffice.
pub data Part : Type 0 where
  more : Transfer → Part
  again : Transfer → Part
  finishes : Transfer → Part
  leaves : Transfer → Part
  faults : Part
  spins : Part

infixl 5 ◌>>=◌
abbrev pub ◌>>=◌ : Part → (Transfer → Part) → Part
more s >>= f = f s
again s >>= f = again s
finishes s >>= f = finishes s
leaves s >>= f = leaves s
faults >>= f = faults
spins >>= f = spins

-- what follows a round: the next one after its end and after a `continue`
abbrev pub next_round : (Transfer → Part) → Part → Part
next_round f (more s) = f s
next_round f (again s) = f s
next_round f (finishes s) = finishes s
next_round f (leaves s) = leaves s
next_round f faults = faults
next_round f spins = spins

abbrev pub log : List Action → Transfer → Transfer
log more_actions s = record s { actions = s.actions ++ more_actions }

abbrev pub when : Bool → Action → List Action
when b a = if b then a ∷ [] else []
