-- ===== src/Tests/Interleaved.antt =====
-- A cursor between calls of other threads, and an interrupted write, at concrete inputs.
use ring_buffer.Prelude.{
  ◌≡◌, refl, List, [], ◌∷◌, ◌++◌, none, ◌&&◌, ◌==◌, if◌then◌else◌, take, map, arith, inl,
}
use ring_buffer.Memory.Record.{Record}
use ring_buffer.Disk.ControlBlock
use ring_buffer.Disk.Outcome.{ok, err, invalid_buffer}
use ring_buffer.Disk.Persistent.{write}
use ring_buffer.Disk.Persistent.Open.{new}
use ring_buffer.Disk.Persistent.Read.{stored}
use ring_buffer.Disk.Persistent.Crash.{interrupted}
use ring_buffer.Disk.Interrupted.{before_write, new-interrupted}
use ring_buffer.Disk.Queue.{writes}
use ring_buffer.Disk.Queue.Refine.{Holds}
use ring_buffer.Disk.Reopen.{succeeds}
use ring_buffer.Disk.Cursor.{seek_to, read_batch}
use ring_buffer.Disk.Cursor.Interleaved.{Event, calls, nexts, seeks, run, returned}
use ring_buffer.Disk.Cursor.Interleaved.Order.{start, run-returned}
use ring_buffer.Tests.Toy.{toy, three_bytes, one_byte, small_buffer}
use ring_buffer.Tests.Disk.{
  small_buffer-Holds, control-new, three_bytes-IsStorable, one_byte-IsStorable,
}

-- A write falls between the two accesses of the first `next`.
abbrev events : List Event
events =
    calls (writes three_bytes none)
    ∷ (seeks ∷ (nexts ∷ (calls (writes one_byte none) ∷ (nexts ∷ (nexts ∷ [])))))

run-returned_example :
    let s = run (start small_buffer) events in
    (left : List Record) × (s.answers ++ returned left ≡ returned (three_bytes ∷ (one_byte ∷ [])))
    × ((read_batch 1 s.buffer (seek_to s.buffer s.cursor s.cursor.position) 5).0
        ≡ ok (map stored (take 5 left)))
run-returned_example =
    run-returned events small_buffer [] 0 5 small_buffer-Holds
      (three_bytes-IsStorable, (one_byte-IsStorable, tt)) (omega (arith, control-new)) (omega arith)

size-control : small_buffer.control.buffer_size ≡ small_buffer.size
unfolding ControlBlock.new ControlBlock.update_crc
size-control = refl

-- The header is in the map, and a byte of the data.
new-interrupted_example :
    let b' = before_write "log" small_buffer three_bytes 25 in
    (new "log" succeeds (interrupted small_buffer three_bytes 25) 60 ≡ (
      if (small_buffer.control.magic == ControlBlock.magic_number)
            && ControlBlock.verify_crc small_buffer.control
          then ok b'
          else err invalid_buffer,
      interrupted small_buffer three_bytes 25,
    ))
    × Holds b' []
    × (interrupted small_buffer three_bytes 75 ≡ (write small_buffer three_bytes none).1.mmap)
new-interrupted_example =
    new-interrupted "log" small_buffer [] three_bytes none 25 60 small_buffer-Holds size-control
      (omega arith) (omega arith) (inl (omega (arith, control-new))) (omega arith)
