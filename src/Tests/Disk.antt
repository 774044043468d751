-- ===== src/Tests/Disk.antt =====
-- The persistent buffer at concrete inputs.
use ring_buffer.Prelude.{ℕ, ◌≡◌, ◌≢◌, refl, ◌∙◌, sym, List, [], ◌∷◌, Option, none, some, arith}
use ring_buffer.Bytes.{to_le_bytes, from_le_bytes}
use ring_buffer.Memory.Record.{Record}
use ring_buffer.Disk.ControlBlock
use ring_buffer.Disk.ControlBlock.{ControlBlock, IsBlock}
use ring_buffer.Disk.Outcome.{ok, err, io_error, invalid_buffer, Returns}
use ring_buffer.Disk.Persistent.{PersistentRingBuffer, wrapped, write, read_at, read_all}
use ring_buffer.Disk.Persistent.Open.{OpenIo, new}
use ring_buffer.Disk.Persistent.Unmapped.{new-unmapped}
use ring_buffer.Disk.Persistent.Valid.{IsValid, moved-IsValid}
use ring_buffer.Disk.Persistent.Write.{after_write, write_lem, write-IsValid}
use ring_buffer.Disk.Persistent.Frames.{IsStorable}
use ring_buffer.Disk.Persistent.Read.{ReadBounds, read_at-bounds}
use ring_buffer.Disk.Persistent.ReadAll.{moved, read_all-total}
use ring_buffer.Disk.Persistent.Lap.{moved-fields}
use ring_buffer.Disk.Persistent.Wrap.{
  HoldsLap, lap_write, lap_write_all, write_all, all_records, write_all_refines, size-write_all,
}
use ring_buffer.Disk.Persistent.Opening.{Opens, Leaves, new-Opens}
use ring_buffer.Disk.Persistent.Passed.{read_all-passed_over}
use ring_buffer.Disk.Queue.{Call, writes, reads_all, resets, run, queue_run}
use ring_buffer.Disk.Queue.Refine.{Holds, run_refines}
use ring_buffer.Disk.Queue.Safe.{AllAnswer, run-AllAnswer}
use ring_buffer.Disk.Reopen.{succeeds, fresh, new-empty, new-after_write}
use ring_buffer.Tests.Toy.{toy, toy-DetectsBursts, three_bytes, one_byte, small_buffer}

pub small_buffer-Holds : Holds small_buffer []
small_buffer-Holds = (new-empty "log" 60 (omega arith)).1

pub three_bytes-IsStorable : IsStorable three_bytes
three_bytes-IsStorable = omega arith

pub one_byte-IsStorable : IsStorable one_byte
one_byte-IsStorable = omega arith

abbrev calls : List Call
calls =
    writes three_bytes none
    ∷ (reads_all none ∷ (writes one_byte (some 5) ∷ (reads_all none ∷ (resets none ∷ []))))

pub control-new :
    (small_buffer.control.write_pos ≡ 0)
    × (small_buffer.control.read_pos ≡ 0)
    × (small_buffer.control.wrap_count ≡ 0)
unfolding ControlBlock.new ControlBlock.update_crc
control-new = (refl, refl, refl)

run_refines_example : run small_buffer calls ≡ queue_run [] calls
run_refines_example =
    run_refines calls small_buffer [] small_buffer-Holds
      (three_bytes-IsStorable, (one_byte-IsStorable, tt)) (omega (arith, control-new))

-- The third of four writes wraps, and the last stands behind it.
abbrev pub four_writes : List (Record × Option ℕ)
four_writes =
    (three_bytes, none) ∷ ((one_byte, none) ∷ ((one_byte, none) ∷ ((three_bytes, none) ∷ [])))

pub small_buffer-HoldsLap : HoldsLap small_buffer (0, [])
small_buffer-HoldsLap = record {
  valid = small_buffer-Holds.valid;
  used = control-new.0;
  lap = sym control-new.0;
}

pub write_all_refines_example :
    HoldsLap
      (write_all small_buffer four_writes)
      (lap_write_all 60 (0, []) (three_bytes ∷ (one_byte ∷ (one_byte ∷ (three_bytes ∷ [])))))
write_all_refines_example =
    write_all_refines four_writes small_buffer (0, []) small_buffer-HoldsLap
      (
        three_bytes-IsStorable,
        (one_byte-IsStorable, (one_byte-IsStorable, (three_bytes-IsStorable, tt))),
      )

write-IsValid_example : IsValid (write small_buffer three_bytes (some 5)).1
write-IsValid_example =
    write-IsValid small_buffer three_bytes (some 5) small_buffer-Holds.valid (omega arith)

read_all-total_example :
    Returns (read_all (write small_buffer three_bytes none).1 none).0
    × IsValid (read_all (write small_buffer three_bytes none).1 none).1
read_all-total_example =
    read_all-total (write small_buffer three_bytes none).1 none
      (write-IsValid small_buffer three_bytes none small_buffer-Holds.valid (omega arith))

read_at-bounds_example : ReadBounds small_buffer 40 (read_at small_buffer 40)
read_at-bounds_example = read_at-bounds small_buffer 40 small_buffer-Holds.valid

new-empty_example :
    (new "log" succeeds [] 60 ≡ (ok (fresh "log" 60), (fresh "log" 60).mmap))
    × Holds (fresh "log" 60) []
new-empty_example = new-empty "log" 60 (omega arith)

-- The calls succeed up to the mapping of the file.
abbrev unmapped : OpenIo
unmapped = record succeeds { mapped = some 12 }

new-unmapped_example :
    (file : List ℕ) × (new "log" unmapped [] 60 ≡ (err (io_error 12), file))
    × ((size' : ℕ) → new "log" succeeds file size' ≡ (err invalid_buffer, file))
new-unmapped_example =
    new-unmapped "log" unmapped succeeds 60 12 (omega arith) refl refl refl refl refl refl refl

-- Two writes that leave eight bytes.
abbrev pub two_writes : List (Record × Option ℕ)
two_writes = (three_bytes, none) ∷ ((one_byte, none) ∷ [])

abbrev pub filled_buffer : PersistentRingBuffer
filled_buffer = write_all small_buffer two_writes

filled_laps :
    lap_write_all 60 (0, []) (all_records two_writes) ≡ (52, three_bytes ∷ (one_byte ∷ []))
unfolding lap_write_all lap_write
filled_laps = refl

pub filled_buffer-HoldsLap : HoldsLap filled_buffer (52, three_bytes ∷ (one_byte ∷ []))
filled_buffer-HoldsLap = rw filled_laps at (
    write_all_refines two_writes small_buffer (0, []) small_buffer-HoldsLap
      (three_bytes-IsStorable, (one_byte-IsStorable, tt)))

pub size-filled_buffer : filled_buffer.size ≡ 60
size-filled_buffer =
    size-write_all two_writes small_buffer (0, []) small_buffer-HoldsLap
      (three_bytes-IsStorable, (one_byte-IsStorable, tt))

-- All of it read, and a write that does not fit behind it.
abbrev read_buffer : PersistentRingBuffer
read_buffer = moved filled_buffer 52

read_all-passed_over_example :
    (read_all (write_all read_buffer ((three_bytes, none) ∷ ((one_byte, none) ∷ []))) none).0
    ≡ ok []
read_all-passed_over_example =
    let m = moved-fields filled_buffer 52 in
    let h = filled_buffer-HoldsLap in
    read_all-passed_over read_buffer three_bytes none ((one_byte, none) ∷ [])
      (moved-IsValid filled_buffer 52 h.valid (omega (arith, size-filled_buffer)))
      (omega (arith, m, size-filled_buffer)) (omega (arith, m, h.used, size-filled_buffer))
      (omega (arith, m))

-- A file of three bytes.
new-Opens_example :
    Opens 3 (new "log" succeeds (1 ∷ (2 ∷ (3 ∷ []))) 60)
    × Leaves 60 (1 ∷ (2 ∷ (3 ∷ []))) (new "log" succeeds (1 ∷ (2 ∷ (3 ∷ []))) 60).1
new-Opens_example = new-Opens "log" succeeds (1 ∷ (2 ∷ (3 ∷ []))) 60 (omega arith)

small_crc : small_buffer.control.crc32 ≡ 1
unfolding ControlBlock.new ControlBlock.update_crc ControlBlock.hashed_bytes ControlBlock.as_bytes
    ControlBlock.fields_as_bytes to_le_bytes from_le_bytes
small_crc = refl

written_crc : (after_write small_buffer three_bytes).control.crc32 ≡ 2
unfolding ControlBlock.new ControlBlock.update_crc ControlBlock.hashed_bytes ControlBlock.as_bytes
    ControlBlock.fields_as_bytes to_le_bytes from_le_bytes wrapped
written_crc = refl

crc_changed : (write small_buffer three_bytes none).1.control.crc32 ≢ small_buffer.control.crc32
crc_changed =
    rw
      (write_lem small_buffer three_bytes none small_buffer-Holds.valid (omega arith) (omega arith))
      (λ e. absurd (omega (arith, sym written_crc ∙ e ∙ small_crc)))

new-after_write_example :
    new "log" succeeds (write small_buffer three_bytes none).1.mmap 60
    ≡ (err invalid_buffer, (write small_buffer three_bytes none).1.mmap)
new-after_write_example =
    new-after_write "log" small_buffer three_bytes none 60 toy-DetectsBursts
      small_buffer-Holds.valid (omega arith) (omega arith) crc_changed

-- Three writes, of which the last wraps, and a read.
abbrev wrapping_calls : List Call
wrapping_calls =
    writes three_bytes none
    ∷ (writes one_byte (some 5) ∷ (writes three_bytes none ∷ (reads_all none ∷ [])))

run-AllAnswer_example : AllAnswer (run small_buffer wrapping_calls)
run-AllAnswer_example =
    run-AllAnswer wrapping_calls small_buffer small_buffer-Holds.valid
      (omega arith, (omega arith, (omega arith, tt)))
