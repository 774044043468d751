-- ===== src/Disk/Cursor/Interleaved/Order.antt =====
-- While no write wraps, a cursor between calls of other threads returns the records in order, each
-- once.
use ring_buffer.Prelude.{
  ℕ, suc, ◌+◌, ◌*◌, ◌^◌, ◌≤◌, ◌<◌, ◌≡◌, refl, ◌∙◌, sym, List, [], ◌∷◌, ◌++◌, map, append-nil,
  append_assoc, take, none, arith,
}
use ring_buffer.Platform.{Platform}
use ring_buffer.Memory.Record.{Record}
use ring_buffer.Disk.Outcome.{ok}
use ring_buffer.Disk.Persistent.{PersistentRingBuffer}
use ring_buffer.Disk.Persistent.Read.{stored}
use ring_buffer.Disk.Queue.{queue_step, needed, AllStorable}
use ring_buffer.Disk.Queue.Refine.{Holds, Agrees, step-Agrees}
use ring_buffer.Disk.Cursor.{new, seek_to, read_batch}
use ring_buffer.Disk.Cursor.Seek.{seek_to-AtFrames}
use ring_buffer.Disk.Cursor.Batch.{new-AtFrames, read_batch-frames}
use ring_buffer.Disk.Cursor.Interleaved.{
  State, Event, calls, nexts, seeks, next_part, seek_part, step, run, calls_of, written,
  all_written, returned,
}
use ring_buffer.Disk.Cursor.Interleaved.Follows.{
  Follows, call-Follows, next-Follows, sought-Follows, buffer-next_part, buffer-seek_part,
}

module _ ⦃p : Platform⦄ where
  run-Follows :
      (es : List Event) (s : State) (q ahead all : List Record)
      → Follows s q ahead all
      → AllStorable (calls_of es)
      → s.buffer.control.write_pos + needed (calls_of es) ≤ s.buffer.size
      → (q' : List Record) × (ahead' : List Record) × Follows
          (run s es)
          q'
          ahead'
          (all ++ all_written es)
  unfolding run step Agrees
  run-Follows [] s q ahead all f storable fits = (q, ahead, rw append-nil f)
  run-Follows (calls c ∷ es) s q ahead all f storable fits =
      let agrees = step-Agrees s.buffer q c (calls_of es) f.holds storable fits in
      let f' = call-Follows s q ahead all c (calls_of es) f storable fits in
      rw (sym (append_assoc all (written c) (all_written es))) (
        run-Follows es (step s (calls c)) (queue_step q c).1 (ahead ++ written c) (all ++ written c)
          f' agrees.1 (omega (arith, agrees)))
  run-Follows (nexts ∷ es) s q ahead all f storable fits =
      let f' = next-Follows s s.reading q ahead all f refl in
      run-Follows es (next_part s s.reading) q f'.0 all f'.1 storable
        (rw (buffer-next_part s s.reading) fits)
  run-Follows (seeks ∷ es) s q ahead all f storable fits =
      run-Follows es (seek_part s s.reading) q ahead all
        (sought-Follows s s.reading q ahead all f refl) storable
        (rw (buffer-seek_part s s.reading) fits)

  -- A new cursor on a buffer.
  abbrev pub start : PersistentRingBuffer → State
  start b = record { buffer = b; cursor = new b none; reading = none; answers = [] }

  start-Follows : (b : PersistentRingBuffer) (q : List Record) → Holds b q → Follows (start b) q q q
  start-Follows b q h =
      let new_cursor = new-AtFrames b q h in
      record {
        holds = h;
        same_lap = new_cursor.same_lap;
        frames = new_cursor.ahead;
        going = λ going. sym new_cursor.end ∙ going;
        reading = tt;
        answers = refl;
      }

  -- A new cursor on a valid buffer with the unread records `q` runs in one thread, and others call
  -- `write`, `read_all` and `reset_read_position`, in any order and also between the two accesses
  -- of a `next`; the cursor may seek to its own position between two calls of `next`. If each
  -- record that is written has a length, timestamp and tag that fit the header's fields, and their
  -- frames fit between the write position and the end of the data section, then at any time what
  -- `next` has returned, with the records `left` behind it, is `q` and the records written since:
  -- in order, none twice, none left out, no error, no gap. A `read_batch` of a count of records
  -- below 2^63 bytes, behind a `seek_to` to the cursor's position, then returns the first of
  -- `left`.
  pub run-returned :
      (es : List Event) (b : PersistentRingBuffer) (q : List Record) (fuel n : ℕ)
      → Holds b q
      → AllStorable (calls_of es)
      → b.control.write_pos + needed (calls_of es) ≤ b.size
      → n * 48 < 2 ^ 63
      → let s = run (start b) es in
        (left : List Record) × (s.answers ++ returned left ≡ returned (q ++ all_written es))
        × ((read_batch (suc fuel) s.buffer (seek_to s.buffer s.cursor s.cursor.position) n).0
            ≡ ok (map stored (take n left)))
  run-returned es b q fuel n h storable fits small =
      let (q', left, f) = run-Follows es (start b) q q q (start-Follows b q h) storable fits in
      let s = run (start b) es in
      (
        left,
        f.answers,
        (read_batch-frames fuel s.buffer (seek_to s.buffer s.cursor s.cursor.position) n left small
            (seek_to-AtFrames s.buffer s.cursor left f.holds.valid f.same_lap f.frames)).0,
      )
