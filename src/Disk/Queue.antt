-- ===== src/Disk/Queue.antt =====
-- What a client sees of a persistent buffer that does not wrap: a queue of the records that have
-- been written and not yet read.
pub mod Refine
pub mod Safe
use ring_buffer.Prelude.{ℕ, zero, ◌+◌, List, [], ◌∷◌, ◌++◌, map, Option, length}
use ring_buffer.Platform.{Platform}
use ring_buffer.Memory.Record.{Record}
use ring_buffer.Disk.Outcome.{Outcome, ok, ◌>>=◌, io_result}
use ring_buffer.Disk.Persistent.{PersistentRingBuffer, write, read_all, reset_read_position}
use ring_buffer.Disk.Persistent.Frames.{IsStorable}
use ring_buffer.Disk.Persistent.Read.{stored}
use ring_buffer.Disk.Persistent.Write.{frame_size}

-- A call, with the answer that the system gives to its `flush`.
pub data Call : Type 0 where
  writes : Record → Option ℕ → Call
  reads_all : Option ℕ → Call
  resets : Option ℕ → Call

pub data Reply : Type 0 where
  done : Outcome (Unit {0}) → Reply
  records : Outcome (List Record) → Reply

module _ ⦃p : Platform⦄ where
  -- The buffer's answer to a call, and the buffer that it leaves.
  unfoldable pub step : PersistentRingBuffer → Call → Reply × PersistentRingBuffer
  step b (writes r io) = let (o, b') = write b r io in (done o, b')
  step b (reads_all io) = let (o, b') = read_all b io in (records o, b')
  step b (resets io) = let (o, b') = reset_read_position b io in (done o, b')

  unfoldable pub run : PersistentRingBuffer → List Call → List Reply
  run b [] = []
  run b (c ∷ cs) = let (reply, b') = step b c in reply ∷ run b' cs

  -- The queue's. A read of an empty queue needs no `flush`.
  unfoldable pub queue_step : List Record → Call → Reply × List Record
  queue_step q (writes r io) = (done (io_result io), q ++ (r ∷ []))
  queue_step [] (reads_all io) = (records (ok []), [])
  queue_step (r ∷ q) (reads_all io) = (records (io_result io >>= λ _. ok (map stored (r ∷ q))), [])
  queue_step q (resets io) = (done (io_result io), [])

  unfoldable pub queue_run : List Record → List Call → List Reply
  queue_run q [] = []
  queue_run q (c ∷ cs) = let (reply, q') = queue_step q c in reply ∷ queue_run q' cs

  -- The bytes that the writes among the calls take.
  abbrev pub needed : List Call → ℕ
  needed [] = 0
  needed (writes r io ∷ cs) = frame_size r + needed cs
  needed (reads_all io ∷ cs) = needed cs
  needed (resets io ∷ cs) = needed cs

  abbrev pub AllStorable : List Call → Type 0
  AllStorable [] = Unit {0}
  AllStorable (writes r io ∷ cs) = IsStorable r × AllStorable cs
  AllStorable (reads_all io ∷ cs) = AllStorable cs
  AllStorable (resets io ∷ cs) = AllStorable cs
