-- ===== src/Lmdd/Transfer.antt =====
-- The transfer of lmdd: the second half of `main` of lmbench3/src/lmdd.c, its endless loop, and
-- `been_there`. A buffer is a list of 32-bit words. What the system answers in a round is an input,
-- what the round does to the outside a list of actions.
pub mod State
pub mod Pattern
pub mod Norepeat
pub mod Written
pub mod Rounds
pub mod Copy
pub use State.*
use repo_support_tools.Base.{
  ℕ, zero, suc, ◌+◌, ◌-◌, ◌*◌, ◌/◌, ◌%◌, ◌^◌, Bool, true, false, ◌&&◌, ◌||◌, not, Option, none,
  some, List, [], ◌∷◌, ◌++◌, length, get_or, set, replicate, ltb, leb, ◌==◌, if◌then◌else◌,
}
use repo_support_tools.Base.Int.{ℤ, pos, negsuc, ltb_ℤ, ◌-ℤ◌}
use repo_support_tools.Lmdd.Settings.{Settings, given, given_u64, sub_u64, align_up, block, nonzero}
use repo_support_tools.Lmdd.Histogram.{bucket, count_in}

-- the loop of `been_there`: `k` rounds from `i` on
unfoldable pub seen_from : (seen : List ℕ) (off i k : ℕ) → Bool
seen_from seen off i zero = false
seen_from seen off i (suc k) = (get_or seen i 0 == off) || seen_from seen off (i + 1) k

-- `for (i = 0; i <= norepeats; ++i)`
unfoldable pub been_there : Transfer → ℕ → Bool
unfolding seen_from
been_there s off = elim s.norepeats [ pos n ↦ seen_from s.seen off 0 (n + 1) | negsuc n ↦ false ]

-- `norepeat[norepeats++] = off`
unfoldable pub remember : ℕ → Transfer → Part
remember off s = elim s.norepeats [
  | pos n ↦
      if ltb n (length s.seen)
      then more (record s { seen = set s.seen n off; norepeats = pos (n + 1) })
      else faults
  | negsuc n ↦ faults
]

-- `for (foo = 0, cnt = moved/sizeof(int); cnt--; foo++)` on the output: the word `foo` of
-- the pattern is its own offset.
abbrev pub pattern_word : (off foo : ℕ) → ℕ
pattern_word off foo = (off + foo * 4) % 2 ^ 32

unfoldable pub fill_words : (off foo cnt : ℕ) → List ℕ → List ℕ
fill_words off foo zero buf = buf
fill_words off foo (suc cnt) buf = fill_words off (foo + 1) cnt (set buf foo (pattern_word off foo))

-- `for (i = 0; i < moved; i += 4096) ((char *)buf)[i] = 0;` with `k` rounds left: on a little-endian
-- machine it clears the low byte of every 1024th word.
unfoldable pub touch_words : (i k : ℕ) → List ℕ → List ℕ
touch_words i zero buf = buf
touch_words i (suc k) buf = touch_words (i + 1024) k (set buf i (get_or buf i 0 / 2 ^ 8 * 2 ^ 8))

module _ (c : Settings) (input output : ℤ) where
  -- `in >= 0`, `out >= 0`
  abbrev pub has_input : Bool
  has_input = not (ltb_ℤ input (pos 0))

  abbrev pub has_output : Bool
  has_output = not (ltb_ℤ output (pos 0))

  abbrev pub gotcnt : Bool
  gotcnt = given_u64 c.count

  -- `if (gotcnt && count-- <= 0) done();` on a `uint64`
  unfoldable pub count_down : Transfer → Part
  count_down s =
      if gotcnt
      then (if s.count == 0 then finishes s else more (record s { count = s.count - 1 }))
      else more s

  -- `do { off = ...; } while (norepeat && been_there(off));`
  unfoldable pub draw_until : (ℕ → ℕ) → ℕ → List (ℕ → ℕ) → Transfer → Part
  unfolding been_there
  draw_until place range [] s = spins
  draw_until place range (d ∷ ds) s =
      let off = place (d range) in
      let rest = draw_until place range ds s in
      if c.norepeat && been_there s off then rest else more (record s { off = off })

  -- `if (!gotcnt && (norepeats == 10<<10)) norepeats = 0;`
  abbrev pub wrap_seen : Transfer → Transfer
  wrap_seen s = elim s.norepeats [
    | pos n ↦ if not gotcnt && (n == 10 * 2 ^ 10) then record s { norepeats = pos 0 } else s
    | negsuc n ↦ s
  ]

  abbrev pub remember_off : Transfer → Part
  remember_off s = if c.norepeat then remember s.off s else more s

  -- `LSEEK` on the files that are no internal ones
  abbrev pub seek : Transfer → Transfer
  seek s = log (when has_input (seeks_input s.off) ++ when has_output (seeks_output s.off)) s

  abbrev pub plus_first : ℕ → ℕ
  plus_first off = if given_u64 c.first then (off + c.first) % 2 ^ 64 else off

  -- `start = start ? 0 : Rand - End;`, and the offset at that end of the range
  abbrev pub other_end : Transfer → ℕ
  other_end s = if s.far == 0 then sub_u64 c.rand c.last else 0

  abbrev pub end_place : (far drawn : ℕ) → ℕ
  end_place far drawn = plus_first ((align_up drawn (block c) + far) % 2 ^ 64)

  abbrev pub settle_end : Transfer → Part
  settle_end s = more (seek (if c.norepeat then wrap_seen s else s))

  -- `if (End != -1)`: an offset at one end of the range, in turns
  unfoldable pub at_ends : List (ℕ → ℕ) → Transfer → Part
  unfolding draw_until remember
  at_ends draws s =
      draw_until (end_place (other_end s)) c.last draws (record s { far = other_end s })
      >>= remember_off
      >>= settle_end

  abbrev pub range_place : (drawn : ℕ) → ℕ
  range_place drawn = align_up (plus_first drawn) (block c)

  abbrev pub settle_range : Transfer → Part
  settle_range s = more (seek (wrap_seen s))

  -- `else if (Rand != -1)`: an offset anywhere in the range
  unfoldable pub anywhere : List (ℕ → ℕ) → Transfer → Part
  unfolding draw_until remember
  anywhere draws s =
      draw_until range_place (sub_u64 c.size (block c)) draws s >>= remember_off >>= settle_range

  -- the offset of the round
  unfoldable pub choose_offset : List (ℕ → ℕ) → Transfer → Part
  unfolding at_ends anywhere
  choose_offset draws s =
      if given_u64 c.last
      then at_ends draws s
      else if given_u64 c.rand
      then anywhere draws s
      else more s

  abbrev pub show_offset : Transfer → Part
  show_offset s = more (if c.poff then log (prints_offset s.off ∷ []) s else s)

  -- `mismatch != -1 && --misses == 0`, once a difference has been printed
  abbrev pub miss : Transfer → Part
  miss s =
      let left = s.misses -ℤ pos 1 in
      if given c.mismatch
      then (if nonzero left
          then more (record s { misses = left })
          else finishes (record s { misses = left }))
      else more s

  -- the same loop on the input
  unfoldable pub check_words : List ℕ → (foo cnt : ℕ) → Transfer → Part
  check_words buf foo zero s = more s
  check_words buf foo (suc cnt) s =
      (if get_or buf foo 0 == pattern_word s.off foo
        then more s
        else miss
            (log (differs (s.off % 2 ^ 32) (pattern_word s.off foo) (get_or buf foo 0) ∷ []) s))
      >>= check_words buf (foo + 1) cnt

  abbrev pub touch_all : ℕ → List ℕ → List ℕ
  touch_all moved buf = if c.touch then touch_words 0 ((moved + 4095) / 4096) buf else buf

  -- `buf = bufs[nextbuf]; if (++nextbuf == nbufs) nextbuf = 0;`: there are no more buffers than have
  -- been allocated.
  unfoldable pub take_buffer : Transfer → Part
  take_buffer s =
      let next : ℕ = elim c.nbufs [
        | pos n ↦ if n == s.nextbuf + 1 then 0 else s.nextbuf + 1
        | negsuc n ↦ s.nextbuf + 1
      ] in
      if ltb s.nextbuf (length s.bufs) then more (record s { nextbuf = next }) else faults

  -- the time of a read and of a write, in the histograms and in the messages
  abbrev pub timed : (max min : ℤ) → Bool
  timed max min = given max || given min

  abbrev pub slow : ℕ → (max min : ℤ) → Bool
  slow mills max min = ltb_ℤ max (pos mills) || ltb_ℤ (pos mills) min

  unfoldable pub record_read : ℕ → Transfer → Transfer
  record_read mics s =
      let mills = mics / 1000 in
      if timed c.rtmax c.rtmin
      then log (when (slow mills c.rtmax c.rtmin) (slow_read mics))
          (record s { rthist = count_in (bucket mills c.rtmax c.rtmin) s.rthist })
      else s

  unfoldable pub record_write : ℕ → Transfer → Transfer
  record_write mics s =
      let mills = mics / 1000 in
      if timed c.wtmax c.wtmin
      then log (when (slow mills c.wtmax c.wtmin) (slow_write mics))
          (record s { wthist = count_in (bucket mills c.wtmax c.wtmin) s.wthist })
      else s

  abbrev pub buffer : Transfer → ℕ → List ℕ
  buffer s b = get_or s.bufs b []

  abbrev pub put_buffer : ℕ → List ℕ → Transfer → Transfer
  put_buffer b words s = record s { bufs = set s.bufs b words }

  -- `moved = read(in, buf, Bsize);` and its time; a padding read is not counted
  unfoldable pub read_block : Round → ℕ → Transfer → Part
  unfolding record_read
  read_block e b s =
      let filled = put_buffer b (e.arrives (buffer s b)) s in
      if has_input
      then (if nonzero s.pad_in
          then again (record filled { pad_in = pos 0; count = (s.count + 1) % 2 ^ 64 })
          else more (record_read e.read_mics filled))
      else more s

  -- the check and the touch of what was read
  unfoldable pub check_block : ℕ → ℕ → Transfer → Part
  unfolding check_words touch_words
  check_block b moved s =
      (if given c.inpat then check_words (buffer s b) 0 (moved / 4) s else more s) >>= λ t.
      more (if has_input then put_buffer b (touch_all moved (buffer t b)) t else t)

  -- `off += moved; int_count += (moved >> 2);`
  abbrev pub advance : ℕ → Transfer → Transfer
  advance moved s = record s {
    off = (s.off + moved) % 2 ^ 64;
    int_count = (s.int_count + moved / 4) % 2 ^ 64;
  }

  -- the write: the parent of a fork goes to the next round at once
  unfoldable pub write_block : Round → ℕ → ℕ → Transfer → Part
  unfolding fill_words touch_words record_write
  write_block e b moved s =
      let words =
        if given c.outpat then fill_words s.off 0 (moved / 4) (buffer s b) else buffer s b in
      let written = log (writes words moved ∷ []) (put_buffer b words s) in
      let whole = not (ltb_ℤ e.moved2 (pos moved)) && not (ltb_ℤ (pos moved) e.moved2) in
      let recorded = record_write e.write_mics written in
      if not has_output
      then more s
      else if given c.fork && not e.child
      then again (advance moved s)
      else if whole
      then more (put_buffer b (touch_all moved (buffer recorded b)) recorded)
      else finishes (log (short_write (pos moved) e.moved2 ∷ []) written)

  -- the end of the round; a process that may have forked exits
  abbrev pub end_round : ℕ → Transfer → Part
  end_round moved s =
      let s' = log (when c.hash hash_mark) (advance moved s) in
      if given c.fork then leaves s' else more s'

  -- from the test of `moved` on
  unfoldable pub use_block : Round → ℕ → ℤ → Transfer → Part
  unfolding check_block write_block
  use_block e b moved s = elim moved [
    | negsuc m ↦ finishes s
    | pos m ↦ if m == 0 then finishes s else check_block b m s >>= write_block e b m >>= end_round m
  ]

  -- one round of the loop
  unfoldable pub one_round : Round → Transfer → Part
  unfolding count_down choose_offset take_buffer read_block use_block
  one_round e s = count_down s >>= choose_offset e.draws >>= show_offset >>= λ t.
      take_buffer t
      >>= read_block e t.nextbuf
      >>= use_block e t.nextbuf (if has_input then e.moved else c.bsize)

  -- The loop over the answers of the rounds. Where the answers end, lmdd goes on: the part is `more`.
  unfoldable pub transfer : List Round → Transfer → Part
  transfer [] s = more s
  transfer (e ∷ es) s = next_round (transfer es) (one_round e s)

-- The state before the first round. `off` is what "skip=" asks for; the sizes of the buffers and of
-- the array `norepeat` are those of `valloc` and `calloc`.
unfoldable pub first_state : Settings → (input output : ℤ) → Transfer
first_state c input output =
    let skips = given_u64 c.skip in
    let off = if skips then c.skip * block c % 2 ^ 64 else 0 in
    record {
      bufs = elim c.nbufs [ pos n ↦ replicate n (replicate (block c / 4) 0) | negsuc n ↦ [] ];
      nextbuf = 0;
      pad_in = c.pad_in;
      count = c.count;
      off = off;
      far = 0;
      norepeats = negsuc 0;
      seen = replicate (if given_u64 c.count then c.count else 10 * 2 ^ 10) 0;
      int_count = 0;
      rthist = replicate 12 0;
      wthist = replicate 12 0;
      misses = c.mismatch;
      actions =
          when (skips && has_input c input output) (seeks_input off)
          ++ when (skips && has_output c input output) (seeks_output off)
          ++ when (skips && c.poff) (prints_offset off);
    }

-- The two tests of the histograms against the files, where lmdd exits, and what follows them.
unfoldable pub begin_transfer : Settings → (input output : ℤ) → Option Transfer
unfolding first_state
begin_transfer c input output =
    if given c.rtmax && ltb_ℤ input (pos 0)
    then none
    else if given c.wtmax && ltb_ℤ output (pos 0)
    then none
    else some (first_state c input output)
