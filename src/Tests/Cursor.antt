-- ===== src/Tests/Cursor.antt =====
-- The cursor at concrete inputs.
use ring_buffer.Prelude.{
  ℕ, ◌+◌, ◌≡◌, refl, ap, subst, ◌∙◌, [], ◌∷◌, none, false, arith, length, ◌++◌, ◌*◌, ◌^◌, ◌<◌,
  replicate,
}
use ring_buffer.Platform.{add64}
use ring_buffer.Disk.Outcome.{ok, err, unfinished, invalid_record, Returns}
use ring_buffer.Disk.Persistent.{
  PersistentRingBuffer, header_for, write, read_at, read_data, checked,
}
use ring_buffer.Bytes.{to_le_bytes, from_le_bytes, slice}
use ring_buffer.Disk.ControlBlock
use ring_buffer.Disk.ControlBlock.{ControlBlock}
use ring_buffer.Disk.Header
use ring_buffer.Disk.Persistent.Valid.{IsValid}
use ring_buffer.Disk.Cursor.Corrupt.{AtError, read_batch-corrupt}
use ring_buffer.Disk.Persistent.Write.{after_write, after_write-IsValid}
use ring_buffer.Disk.Persistent.Read.{stored}
use ring_buffer.Disk.Persistent.Lap.{
  wrap_count-stay, wrap_count-wrap, write_pos-stay, read_pos-after_write,
}
use ring_buffer.Disk.Persistent.Frames.{Frames, FrameAt}
use ring_buffer.Disk.Persistent.Wrap.{write_all, HoldsLap, wrap-HoldsLap}
use ring_buffer.Disk.Queue.Refine.{Holds, after_write-Holds}
use ring_buffer.Disk.Cursor.{Cursor, begin, new, next, seek_to, read_batch, commit}
use ring_buffer.Disk.Cursor.Progress.{next-stale, next-Returns}
use ring_buffer.Disk.Cursor.Batch.{AtFrames, new-AtFrames, read_batch-frames}
use ring_buffer.Disk.Cursor.Lapped.{read_batch-lapped}
use ring_buffer.Disk.Cursor.Tail.{read_batch-after_write}
use ring_buffer.Disk.Cursor.Seek.{read_batch-after_wrap, read_batch-commit}
use ring_buffer.Tests.Toy.{toy, three_bytes, one_byte, small_buffer}
use ring_buffer.Tests.Disk.{
  small_buffer-Holds, control-new, three_bytes-IsStorable, one_byte-IsStorable, filled_buffer,
  filled_buffer-HoldsLap, size-filled_buffer,
}

-- A cursor at the start of the current lap.
abbrev pub at_start : Cursor
at_start = record {
  position = record { offset = 0; wrap_count = filled_buffer.control.wrap_count };
  at_end = false;
}

pub at_start-AtFrames : AtFrames filled_buffer at_start (three_bytes ∷ (one_byte ∷ []))
at_start-AtFrames = record {
  valid = filled_buffer-HoldsLap.valid;
  same_lap = refl;
  ahead = filled_buffer-HoldsLap.lap;
  end = refl;
}

read_batch-frames_example :
    ((read_batch 1 filled_buffer at_start 1).0 ≡ ok (stored three_bytes ∷ []))
    × AtFrames filled_buffer (read_batch 1 filled_buffer at_start 1).1 (one_byte ∷ [])
read_batch-frames_example =
    read_batch-frames 0 filled_buffer at_start 1 (three_bytes ∷ (one_byte ∷ [])) (omega arith)
      at_start-AtFrames

next-Returns_example : Returns (next 53 filled_buffer at_start).0
next-Returns_example =
    next-Returns 53 filled_buffer at_start filled_buffer-HoldsLap.valid (omega arith) (omega arith)
      (omega (arith, filled_buffer-HoldsLap.used)) (omega arith)

-- The buffer after a wrap, and a cursor of the lap before, at the end of the data section.
abbrev next_lap : PersistentRingBuffer
next_lap = record small_buffer { control = record small_buffer.control { wrap_count = 1 } }

abbrev stale : Cursor
stale = record { position = record { offset = 60; wrap_count = 0 }; at_end = false }

next-stale_example : (next 100 next_lap stale).0 ≡ unfinished
next-stale_example = next-stale 100 next_lap stale refl (omega arith) (omega arith) (omega arith)

-- The filled buffer again, write by write.
abbrev one_written : PersistentRingBuffer
one_written = after_write small_buffer three_bytes

abbrev two_written : PersistentRingBuffer
two_written = after_write one_written one_byte

one_written-Holds : Holds one_written (three_bytes ∷ [])
one_written-Holds =
    after_write-Holds small_buffer [] three_bytes small_buffer-Holds three_bytes-IsStorable
      (omega (arith, control-new))

write_pos-one_written : one_written.control.write_pos ≡ 27
write_pos-one_written =
    write_pos-stay small_buffer three_bytes small_buffer-Holds.valid (omega (arith, control-new))
    ∙ ap (λ (n : ℕ). n + 27) control-new.0

two_written-Holds : Holds two_written (three_bytes ∷ (one_byte ∷ []))
two_written-Holds =
    after_write-Holds one_written (three_bytes ∷ []) one_byte one_written-Holds one_byte-IsStorable
      (omega (arith, write_pos-one_written))

write_pos-two_written : two_written.control.write_pos ≡ 52
write_pos-two_written =
    write_pos-stay one_written one_byte one_written-Holds.valid
      (omega (arith, write_pos-one_written))
    ∙ ap (λ (n : ℕ). n + 25) write_pos-one_written

read_pos-two_written : two_written.control.read_pos ≡ 0
read_pos-two_written =
    read_pos-after_write one_written one_byte
    ∙ read_pos-after_write small_buffer three_bytes
    ∙ control-new.1

read_batch-after_write_example :
    ((read_batch 1 (write one_written one_byte none).1 (new one_written none) 5).0
      ≡ ok (stored three_bytes ∷ (stored one_byte ∷ [])))
    × ((read_batch 1
          (write one_written one_byte none).1
          (seek_to
            (write one_written one_byte none).1
            (new one_written none)
            (new one_written none).position)
          5).0
        ≡ ok (stored three_bytes ∷ (stored one_byte ∷ [])))
read_batch-after_write_example =
    read_batch-after_write 0 one_written (new one_written none) (three_bytes ∷ []) one_byte none 5
      (omega arith) (new-AtFrames one_written (three_bytes ∷ []) one_written-Holds)
      one_byte-IsStorable (omega (arith, write_pos-one_written))

-- A cursor that has read the first record only.
abbrev past_one : Cursor
past_one = record {
  position = record { offset = 27; wrap_count = two_written.control.wrap_count };
  at_end = false;
}

read_batch-commit_example :
    (read_batch 1
      (commit two_written past_one none).1
      (new (commit two_written past_one none).1 none)
      5).0
    ≡ ok []
read_batch-commit_example =
    read_batch-commit two_written past_one none (three_bytes ∷ (one_byte ∷ [])) 0 5 (omega arith)
      two_written-Holds refl (omega (arith, read_pos-two_written))
      (omega (arith, write_pos-two_written))

wrap_count-two_written : two_written.control.wrap_count ≡ 0
wrap_count-two_written =
    wrap_count-stay one_written one_byte one_written-Holds.valid
      (omega (arith, write_pos-one_written))
    ∙ wrap_count-stay small_buffer three_bytes small_buffer-Holds.valid (omega (arith, control-new))
    ∙ control-new.2

-- A third write wraps.
abbrev wrapped_buffer : PersistentRingBuffer
wrapped_buffer = after_write two_written three_bytes

wrap_count-wrapped_buffer : wrapped_buffer.control.wrap_count ≡ 1
wrap_count-wrapped_buffer =
    wrap_count-wrap two_written three_bytes two_written-Holds.valid (omega arith)
      (omega (arith, write_pos-two_written))
    ∙ ap (λ n. add64 n 1) wrap_count-two_written

two_written-HoldsLap : HoldsLap two_written (52, three_bytes ∷ (one_byte ∷ []))
two_written-HoldsLap = record {
  valid = two_written-Holds.valid;
  used = write_pos-two_written;
  lap =
      subst
        (λ n.
          Frames two_written.mmap n (three_bytes ∷ (one_byte ∷ [])) two_written.control.write_pos)
        read_pos-two_written two_written-Holds.unread;
}

wrapped_buffer-HoldsLap : HoldsLap wrapped_buffer (27, three_bytes ∷ [])
wrapped_buffer-HoldsLap =
    wrap-HoldsLap two_written three_bytes (52, three_bytes ∷ (one_byte ∷ [])) two_written-HoldsLap
      three_bytes-IsStorable (omega arith) (omega (arith, write_pos-two_written))
      (after_write-IsValid two_written three_bytes two_written-Holds.valid (omega arith))

read_batch-after_wrap_example :
    (read_batch 1 wrapped_buffer (seek_to wrapped_buffer stale begin) 5).0
    ≡ ok (stored three_bytes ∷ [])
read_batch-after_wrap_example =
    read_batch-after_wrap 0 wrapped_buffer stale begin 5 (27, three_bytes ∷ []) (omega arith)
      wrapped_buffer-HoldsLap (λ e. absurd (omega (arith, ap length e)))
      (omega (arith, wrap_count-wrapped_buffer))

-- Two records, and the byte of the second has changed in the file.
abbrev damaged_control : ControlBlock
damaged_control = ControlBlock.update_crc (record {
  magic = ControlBlock.magic_number;
  version = 1;
  buffer_size = 60;
  write_pos = 52;
  read_pos = 0;
  wrap_count = 0;
  crc32 = 0;
})

abbrev pub damaged : PersistentRingBuffer
damaged = record {
  path = "log";
  mmap =
      ControlBlock.as_bytes damaged_control
      ++ (Header.as_bytes (header_for three_bytes)
          ++ (three_bytes.bytes ++ (Header.as_bytes (header_for one_byte) ++ (5 ∷ replicate 8 0))));
  control = damaged_control;
  size = 60;
}

abbrev pub damaged_start : Cursor
damaged_start = record { position = begin; at_end = false }

three_bytes-FrameAt : FrameAt damaged.mmap 0 three_bytes
unfolding ControlBlock.as_bytes ControlBlock.fields_as_bytes ControlBlock.update_crc Header.as_bytes
    Header.new Header.update_crc to_le_bytes header_for ControlBlock.hashed_bytes from_le_bytes
three_bytes-FrameAt = record { header_bytes = refl; data_bytes = refl }

damaged-broken : read_at damaged 27 ≡ err invalid_record
unfolding ControlBlock.as_bytes ControlBlock.fields_as_bytes ControlBlock.update_crc Header.as_bytes
    Header.new Header.update_crc to_le_bytes header_for read_at read_data checked Header.is_valid
    Header.verify_crc Header.from_bytes slice ControlBlock.hashed_bytes from_le_bytes
damaged-broken = refl

damaged-IsValid : IsValid damaged
unfolding ControlBlock.as_bytes ControlBlock.fields_as_bytes ControlBlock.update_crc Header.as_bytes
    Header.new Header.update_crc to_le_bytes header_for ControlBlock.hashed_bytes from_le_bytes
damaged-IsValid = record {
  mapped = refl;
  size_le = omega arith;
  write_pos_le = omega arith;
  read_pos_le = omega arith;
  block = omega arith;
  saved = refl;
}

pub damaged_start-AtError : AtError damaged damaged_start (three_bytes ∷ []) 27 invalid_record
unfolding ControlBlock.update_crc
damaged_start-AtError = record {
  valid = damaged-IsValid;
  going = refl;
  ahead = (three_bytes-IsStorable, three_bytes-FrameAt, refl);
  inside = omega arith;
  broken = damaged-broken;
}

read_batch-corrupt_example :
    (c' : Cursor) × (read_batch 1 damaged damaged_start 5 ≡ (err invalid_record, c'))
    × (c'.position.offset ≡ 27)
    × ((m : ℕ) → 0 < m → m * 48 < 2 ^ 63 → read_batch 1 damaged c' m ≡ (err invalid_record, c'))
read_batch-corrupt_example =
    read_batch-corrupt 0 damaged damaged_start 5 (three_bytes ∷ []) 27 invalid_record (omega arith)
      damaged_start-AtError (omega arith)

-- Behind the first of the two records; the next write begins a lap.
abbrev behind_first : Cursor
behind_first = record at_start { position = record at_start.position { offset = 27 } }

behind_first-AtFrames : AtFrames filled_buffer behind_first (one_byte ∷ [])
behind_first-AtFrames = record {
  valid = filled_buffer-HoldsLap.valid;
  same_lap = refl;
  ahead = filled_buffer-HoldsLap.lap.2;
  end = refl;
}

read_batch-lapped_example :
    (read_batch 1 (write_all filled_buffer ((three_bytes, none) ∷ [])) behind_first 1).0
    ≡ ok (stored one_byte ∷ [])
read_batch-lapped_example =
    read_batch-lapped 0 1 filled_buffer behind_first (one_byte ∷ []) three_bytes none []
      behind_first-AtFrames refl (omega (arith, filled_buffer-HoldsLap.used, size-filled_buffer))
      (omega arith) (omega arith) (omega arith)
