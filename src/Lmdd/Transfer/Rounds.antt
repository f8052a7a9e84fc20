-- ===== src/Lmdd/Transfer/Rounds.antt =====
-- A round of the loop of lmdd (lmbench3/src/lmdd.c) that copies a block.
use repo_support_tools.Base.{
  ℕ, ◌+◌, ◌-◌, ◌/◌, ◌<◌, ◌≡◌, true, false, List, [], ◌∷◌, ◌++◌, length, take, get_or, refl, ap, ◌∙◌,
  ltb, lt→ltb, ◌==◌, if◌then◌else◌, arith, length-set, get_or-set_self,
}
use repo_support_tools.Base.Int.{ℤ, pos}
use repo_support_tools.Lmdd.Settings.{Settings, nonzero}
use repo_support_tools.Lmdd.Histogram.{bucket, count_in}
use repo_support_tools.Lmdd.Transfer.{
  writes, prints_offset, slow_read, slow_write, hash_mark, Transfer, Round, Part, more, ◌>>=◌, log,
  when, count_down, choose_offset, take_buffer, timed, slow, record_read, record_write, buffer,
  put_buffer, read_block, check_block, advance, write_block, use_block, one_round,
}
use repo_support_tools.Lmdd.Transfer.Written.{
  written, written-append, Copies, IsPlain, Alike, Alike-if, log-Alike,
}

module _ (c : Settings) (input output : ℤ) (plain : IsPlain c input output) where
  abbrev rewrote : ℕ → Transfer → Transfer
  rewrote b s = put_buffer c input output b (buffer c input output s b) s

  check_block-plain :
      (b m : ℕ) (s : Transfer) → check_block c input output b m s ≡ more (rewrote b s)
  unfolding check_block
  check_block-plain b m s = rw (plain.no_inpat, plain.from, plain.no_touch) refl

  same_size : (m : ℕ) → ltb (m + 0) (m + 0) ≡ false
  same_size m = ground arith

  abbrev noted : Round → (b m : ℕ) → Transfer → Transfer
  noted e b m s =
      record_write c input output e.write_mics
        (log (writes (buffer c input output s b) m ∷ []) (rewrote b s))

  write_block-plain :
      (e : Round) (b m : ℕ) (s : Transfer)
      → e.moved2 ≡ pos m
      → write_block c input output e b m s ≡ more (rewrote b (noted e b m s))
  unfolding write_block
  write_block-plain e b m s all =
      rw (plain.no_outpat, plain.to, plain.no_fork, all, same_size m, plain.no_touch) refl

  record_read-Alike : (mics : ℕ) (s : Transfer) → Alike s (record_read c input output mics s)
  unfolding record_read
  record_read-Alike mics s =
      Alike-if (timed c input output c.rtmax c.rtmin) _ s s
        (log-Alike (slow c input output (mics / 1000) c.rtmax c.rtmin) (slow_read mics)
          (record s { rthist = count_in (bucket (mics / 1000) c.rtmax c.rtmin) s.rthist }) refl)
        (refl, refl, refl, refl, refl)

  record_write-Alike : (mics : ℕ) (s : Transfer) → Alike s (record_write c input output mics s)
  unfolding record_write
  record_write-Alike mics s =
      Alike-if (timed c input output c.wtmax c.wtmin) _ s s
        (log-Alike (slow c input output (mics / 1000) c.wtmax c.wtmin) (slow_write mics)
          (record s { wthist = count_in (bucket (mics / 1000) c.wtmax c.wtmin) s.wthist }) refl)
        (refl, refl, refl, refl, refl)

  -- how a round that copies `words` changes the state
  abbrev Copied : (words : List ℕ) → Transfer → Transfer → Type 0
  Copied words s t =
      (length t.bufs ≡ length s.bufs)
      × (t.nextbuf ≡ s.nextbuf)
      × (t.pad_in ≡ s.pad_in)
      × (t.count ≡ s.count)
      × (written t.actions ≡ written s.actions ++ (words ∷ []))

  noted-Copied :
      (e : Round) (b m : ℕ) (words : List ℕ) (s : Transfer)
      → take (m / 4) (buffer c input output s b) ≡ words
      → Copied words s (noted e b m s)
  noted-Copied e b m words s gives =
      let same =
        record_write-Alike e.write_mics
          (log (writes (buffer c input output s b) m ∷ []) (rewrote b s)) in
      (
        ap length same.0 ∙ length-set s.bufs b _,
        same.1,
        same.2,
        same.3,
        same.4
            ∙ written-append s.actions (writes (buffer c input output s b) m ∷ [])
            ∙ ap (λ w. written s.actions ++ (w ∷ [])) gives,
      )

  use_block-plain :
      (e : Round) (b m : ℕ) (words : List ℕ) (s : Transfer)
      → (m == 0) ≡ false
      → e.moved2 ≡ pos m
      → b < length s.bufs
      → take (m / 4) (buffer c input output s b) ≡ words
      → (t : Transfer) × (use_block c input output e b (pos m) s ≡ more t) × Copied words s t
  unfolding use_block
  use_block-plain e b m words s some_bytes takes room gives =
      let s' = rewrote b s in
      let same_words : buffer c input output s' b ≡ buffer c input output s b =
        get_or-set_self s.bufs b (buffer c input output s b) [] room in
      let t = rewrote b (noted e b m s') in
      let copied = noted-Copied e b m words s' (ap (take (m / 4)) same_words ∙ gives) in
      let hashed = log-Alike c.hash hash_mark (advance c input output m t) refl in
      (
        log (when c.hash hash_mark) (advance c input output m t),
        rw (some_bytes, check_block-plain b m s, write_block-plain e b m s' takes, plain.no_fork)
            refl,
        (
          ap length hashed.0
              ∙ length-set (noted e b m s').bufs b _
              ∙ copied.0
              ∙ length-set s.bufs b _,
          hashed.1 ∙ copied.1,
          hashed.2 ∙ copied.2,
          hashed.3 ∙ copied.3,
          hashed.4 ∙ copied.4,
        ),
      )

  -- between two rounds
  abbrev pub IsReady : Transfer → Type 0
  IsReady s =
      (length s.bufs ≡ plain.buffers) × (s.nextbuf < plain.buffers) × (nonzero s.pad_in ≡ false)

  abbrev next_buffer : ℕ → ℕ
  next_buffer b = if plain.buffers == b + 1 then 0 else b + 1

  next_buffer_lt : (b : ℕ) → b < plain.buffers → next_buffer b < plain.buffers
  next_buffer_lt b h = ground (arith, plain.some_buffers)

  take_buffer-plain :
      (s : Transfer)
      → IsReady s
      → take_buffer c input output s ≡ more (record s { nextbuf = next_buffer s.nextbuf })
  unfolding take_buffer
  take_buffer-plain s ready =
      let room : ltb s.nextbuf plain.buffers ≡ true = lt→ltb _ _ ready.1 in
      rw (plain.has_buffers, ready.0, room) refl

  -- the state once a block has been read
  abbrev filled : Round → Transfer → Transfer
  filled e s = record_read c input output e.read_mics (
      put_buffer c input output s.nextbuf (e.arrives (buffer c input output s s.nextbuf))
        (record s { nextbuf = next_buffer s.nextbuf }))

  read_block-plain :
      (e : Round) (s : Transfer)
      → IsReady s
      → read_block c input output e s.nextbuf (record s { nextbuf = next_buffer s.nextbuf })
        ≡ more (filled e s)
  unfolding read_block
  read_block-plain e s ready = rw (plain.from, ready.2) refl

  filled-buffer :
      (e : Round) (s : Transfer)
      → IsReady s
      → buffer c input output (filled e s) s.nextbuf ≡ e.arrives (buffer c input output s s.nextbuf)
  filled-buffer e s ready =
      ap (λ all. get_or all s.nextbuf [])
        (record_read-Alike e.read_mics (
          put_buffer c input output s.nextbuf (e.arrives (buffer c input output s s.nextbuf))
            (record s { nextbuf = next_buffer s.nextbuf }))).0
      ∙ get_or-set_self s.bufs s.nextbuf (e.arrives (buffer c input output s s.nextbuf)) []
          (omega (arith, ready.0, ready.1))

  -- The part of a round from the choice of the buffer on.
  rest_of_round :
      (e : Round) (words : List ℕ) (s : Transfer)
      → Copies e words
      → IsReady s
      → (t : Transfer) × ((take_buffer c input output s
            >>= read_block c input output e s.nextbuf
            >>= use_block c input output e s.nextbuf e.moved)
          ≡ more t)
        × IsReady t
        × (t.count ≡ s.count)
        × (written t.actions ≡ written s.actions ++ (words ∷ []))
  rest_of_round e words s copies ready =
      let read = record_read-Alike e.read_mics (
        put_buffer c input output s.nextbuf (e.arrives (buffer c input output s s.nextbuf))
          (record s { nextbuf = next_buffer s.nextbuf })) in
      let size : length (filled e s).bufs ≡ plain.buffers =
        ap length read.0 ∙ length-set s.bufs s.nextbuf _ ∙ ready.0 in
      let used =
        use_block-plain e s.nextbuf copies.bytes words (filled e s) copies.some_bytes copies.takes
          (omega (arith, size, ready.1))
          (ap (take (copies.bytes / 4)) (filled-buffer e s ready) ∙ copies.gives _) in
      let next_lt = next_buffer_lt s.nextbuf ready.1 in
      (
        used.0,
        rw (take_buffer-plain s ready, read_block-plain e s ready)
            (ap (λ m. use_block c input output e s.nextbuf m (filled e s)) copies.reads ∙ used.1),
        (
          used.2.0 ∙ size,
          omega (arith, used.2.1, read.1, next_lt),
          ap nonzero (used.2.2 ∙ read.2) ∙ ready.2,
        ),
        used.2.3 ∙ read.3,
        used.2.4 ∙ ap (λ ws. ws ++ (words ∷ [])) read.4,
      )

  -- what the copy of a block leaves for the next round
  abbrev pub HasCopied : (words : List ℕ) → Transfer → Part → Type 0
  HasCopied words s p =
      (t : Transfer) × (p ≡ more t)
      × IsReady t
      × (t.count ≡ s.count - 1)
      × (written t.actions ≡ written s.actions ++ (words ∷ []))

  pub one_round-plain :
      (e : Round) (words : List ℕ) (s : Transfer)
      → Copies e words
      → IsReady s
      → (s.count == 0) ≡ false
      → HasCopied words s (one_round c input output e s)
  unfolding one_round count_down choose_offset
  one_round-plain e words s copies ready some_block =
      let s1 = record s { count = s.count - 1 } in
      let s2 = if c.poff then log (prints_offset s.off ∷ []) s1 else s1 in
      let shown : Alike s1 s2 =
        Alike-if c.poff _ s1 s1 (log-Alike true (prints_offset s.off) s1 refl)
          (refl, refl, refl, refl, refl) in
      let ready2 : IsReady s2 = (
        ap length shown.0 ∙ ready.0,
        omega (arith, shown.1, ready.1),
        ap nonzero shown.2 ∙ ready.2,
      ) in
      let copied = rest_of_round e words s2 copies ready2 in
      (
        copied.0,
        rw (plain.has_count, some_block, plain.no_last, plain.no_rand, plain.from) copied.1,
        copied.2,
        copied.3 ∙ shown.3,
        copied.4 ∙ ap (λ ws. ws ++ (words ∷ [])) shown.4,
      )
