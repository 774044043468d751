-- ===== src/Tests/Ready.antt =====
-- `read` on a buffer of two slots, the first of them ready.
use ring_buffer.Prelude.{[], ◌∷◌, false}
use ring_buffer.Memory.RecordHeader
use ring_buffer.Memory.RecordHeader.{RecordHeader}
use ring_buffer.Memory.Record.{Record}
use ring_buffer.Memory.Index
use ring_buffer.Memory.Slot
use ring_buffer.Memory.Volatile.{VolatileRingBuffer, Reservation}
use ring_buffer.Memory.Volatile.Ready.Commit.{filled}
use ring_buffer.Tests.Toy.{toy}
use ring_buffer.Tests.Memory.{two_slots}

abbrev log_record : Record
log_record = record {
  header =
      RecordHeader.update_crc (record { size = 3; crc32 = 0; timestamp_us = 5; tag = 1 })
        (7 ∷ (8 ∷ (9 ∷ [])));
  bytes = 7 ∷ (8 ∷ (9 ∷ []));
}

-- A reservation on the buffer itself.
abbrev reserved_first : Reservation
reserved_first = record {
  slot_idx = 0;
  seq = 0;
  size = 27;
  buffer = two_slots 1;
  committed = false;
}

abbrev one_ready : VolatileRingBuffer
one_ready = record (filled reserved_first log_record).buffer {
  prod_seq = record { value = 1; mask = 1 };
}
