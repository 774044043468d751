-- ===== src/Disk/Cursor/Interleaved.antt =====
-- A cursor in one thread, and calls on its buffer in others. `write`, `read_all` and
-- `reset_read_position` keep the write locks until they return: a call is one step. `next` takes a
-- read lock twice, in `read_at` and in `control_block`: calls of others fall between the two.
pub mod Calls
pub mod Follows
pub mod Order
use ring_buffer.Prelude.{
  ℕ, List, [], ◌∷◌, ◌++◌, map, Option, none, some, true, false, if◌then◌else◌,
}
use ring_buffer.Platform.{Platform}
use ring_buffer.Memory.Record.{Record}
use ring_buffer.Disk.Outcome.{Outcome, ok, unfinished}
use ring_buffer.Disk.Persistent.{PersistentRingBuffer, read_at}
use ring_buffer.Disk.Persistent.Read.{stored}
use ring_buffer.Disk.Queue
use ring_buffer.Disk.Queue.{Call, writes, reads_all, resets}
use ring_buffer.Disk.Cursor.{Cursor, after_read, seek_to}

-- `reading` is the result of `read_at` of a `next` that has not yet asked for the control block;
-- `answers` has what `next` has returned, but for the answers that there is no record.
pub record State : Type 0 where
  pub buffer : PersistentRingBuffer
  pub cursor : Cursor
  pub reading : Option (Outcome (Option (Record × ℕ)))
  pub answers : List (Outcome (Option Record))

pub data Event : Type 0 where
  -- another thread's call
  calls : Call → Event
  -- the next part of a `next`
  nexts : Event
  -- `seek_to` to the cursor's own position, between two calls of `next`
  seeks : Event

abbrev pub kept :
    List (Outcome (Option Record))
    → Outcome (Option Record) × Cursor
    → List (Outcome (Option Record))
kept answers (ok none, c) = answers
kept answers (o, c) = answers ++ (o ∷ [])

module _ ⦃p : Platform⦄ where
  -- What `next` returns of the records.
  abbrev pub returned : List Record → List (Outcome (Option Record))
  returned [] = []
  returned (r ∷ rs) = ok (some (stored r)) ∷ returned rs

  -- Where `next` would call itself, behind a gap, its answer is `unfinished`.
  unfoldable pub next_part : State → Option (Outcome (Option (Record × ℕ))) → State
  next_part s none =
      let read = read_at s.buffer s.cursor.position.offset in
      if s.cursor.at_end then s else record s { reading = some read }
  next_part s (some o) =
      let answer = after_read (λ c. (unfinished, c)) s.buffer s.cursor o in
      record s { cursor = answer.1; reading = none; answers = kept s.answers answer }

  unfoldable pub seek_part : State → Option (Outcome (Option (Record × ℕ))) → State
  seek_part s none = record s { cursor = seek_to s.buffer s.cursor s.cursor.position }
  seek_part s (some o) = s

  unfoldable pub step : State → Event → State
  step s (calls c) = record s { buffer = (Queue.step s.buffer c).1 }
  step s nexts = next_part s s.reading
  step s seeks = seek_part s s.reading

  unfoldable pub run : State → List Event → State
  run s [] = s
  run s (e ∷ es) = run (step s e) es

-- The calls among the events.
abbrev pub calls_of : List Event → List Call
calls_of [] = []
calls_of (calls c ∷ es) = c ∷ calls_of es
calls_of (nexts ∷ es) = calls_of es
calls_of (seeks ∷ es) = calls_of es

-- The records that a call writes.
abbrev pub written : Call → List Record
written (writes r io) = r ∷ []
written (reads_all io) = []
written (resets io) = []

abbrev pub all_written : List Event → List Record
all_written [] = []
all_written (calls c ∷ es) = written c ++ all_written es
all_written (nexts ∷ es) = all_written es
all_written (seeks ∷ es) = all_written es
