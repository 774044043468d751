-- ===== src/Disk/Queue/Safe.antt =====
-- Histories of calls on a valid persistent buffer, with any number of wraps and any content.
use ring_buffer.Prelude.{ℕ, List, [], ◌∷◌, Option, none, some, arith, dec_le}
use ring_buffer.Platform.{Platform}
use ring_buffer.Memory.Record.{Record}
use ring_buffer.Disk.Outcome.{Returns, io_result, io_result-Returns}
use ring_buffer.Disk.Persistent.{PersistentRingBuffer, write, reset_read_position}
use ring_buffer.Disk.Persistent.Valid.{IsValid, moved-IsValid}
use ring_buffer.Disk.Persistent.Write.{IsVec, frame_size, write_lem, write-too_large, write-IsValid}
use ring_buffer.Disk.Persistent.ReadAll.{read_all-total}
use ring_buffer.Disk.Queue.{Call, writes, reads_all, resets, Reply, done, records, step, run}
use ring_buffer.Disk.Queue.Refine.{reset_read_position_lem}

-- The call returned a `Result`.
abbrev pub Answers : Reply → Type 0
Answers (done o) = Returns o
Answers (records o) = Returns o

abbrev pub AllAnswer : List Reply → Type 0
AllAnswer [] = Unit {0}
AllAnswer (r ∷ rs) = Answers r × AllAnswer rs

Returns-io_result : (io : Option ℕ) → Returns (io_result io)
Returns-io_result none = tt
Returns-io_result (some e) = tt

module _ ⦃p : Platform⦄ where
  -- The data of each record that is written is a Rust vector.
  abbrev pub AllVec : List Call → Type 0
  AllVec [] = Unit {0}
  AllVec (writes r io ∷ cs) = IsVec r × AllVec cs
  AllVec (reads_all io ∷ cs) = AllVec cs
  AllVec (resets io ∷ cs) = AllVec cs

  write-Returns :
      (b : PersistentRingBuffer) (r : Record) (io : Option ℕ)
      → IsValid b
      → IsVec r
      → Returns (write b r io).0
  write-Returns b r io v small = elim (dec_le (frame_size r) b.size) [
    | yes fits ↦ rw (write_lem b r io v small fits) (io_result-Returns io tt)
    | no over ↦ rw (write-too_large b r io small (omega arith)) tt
  ]

  reset-Safe :
      (b : PersistentRingBuffer) (io : Option ℕ)
      → IsValid b
      → Returns (reset_read_position b io).0 × IsValid (reset_read_position b io).1
  reset-Safe b io v =
      rw (reset_read_position_lem b io v) (
        Returns-io_result io,
        moved-IsValid b b.control.write_pos v (omega (arith, v.write_pos_le)),
      )

  step-Safe :
      (b : PersistentRingBuffer) (c : Call) (cs : List Call)
      → IsValid b
      → AllVec (c ∷ cs)
      → Answers (step b c).0 × IsValid (step b c).1 × AllVec cs
  unfolding step
  step-Safe b (writes r io) cs v s = (write-Returns b r io v s.0, write-IsValid b r io v s.0, s.1)
  step-Safe b (reads_all io) cs v s = let t = read_all-total b io v in (t.0, t.1, s)
  step-Safe b (resets io) cs v s = let t = reset-Safe b io v in (t.0, t.1, s)

  -- On a valid buffer, whatever bytes its data section has, no sequence of `write`, `read_all` and
  -- `reset_read_position`, with any number of wraps and any answers of the system to their
  -- `flush`, panics or runs on: each call returns a result or an error, if the data of each record
  -- is a Rust vector.
  pub run-AllAnswer :
      (cs : List Call) (b : PersistentRingBuffer) → IsValid b → AllVec cs → AllAnswer (run b cs)
  unfolding run
  run-AllAnswer [] b v s = tt
  run-AllAnswer (c ∷ cs) b v s =
      let t = step-Safe b c cs v s in (t.0, run-AllAnswer cs (step b c).1 t.1 t.2)
