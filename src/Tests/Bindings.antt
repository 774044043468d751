-- ===== src/Tests/Bindings.antt =====
-- The bindings at concrete inputs.
use ring_buffer.Prelude.{
  get_elem?, ◌⊎◌, ◌<◌, ◌≤◌, replicate, ◌^◌, ◌≡◌, refl, List, [], ◌∷◌, none, some, true, false,
  arith,
}
use ring_buffer.Memory.Run.{returns}
use ring_buffer.Disk.Outcome.{ok, invalid_record}
use ring_buffer.Disk.Persistent.{PersistentRingBuffer}
use ring_buffer.Disk.Cursor
use ring_buffer.Disk.Cursor.{Cursor}
use ring_buffer.Disk.Queue.Refine.{Holds}
use ring_buffer.Tests.Memory.{two_slots}
use ring_buffer.Globals.Flush.{FlushDaemon, Round}
use ring_buffer.Bindings.{Library, OwnedCursor}
use ring_buffer.Bindings.Boxes.{box_at, without}
use ring_buffer.Bindings.Ios.{
  config_of, swift_initialize, swift_create_cursor, swift_read_next, swift_read_batch,
}
use ring_buffer.Bindings.Ios.Corrupt.{swift_read_batch-corrupt}
use ring_buffer.Bindings.Session.{Event, swift_writes, rounds, session, at_load}
use ring_buffer.Globals.Quiet.{empty_file}
use ring_buffer.Bindings.Unread.{swift_read_next-session, swift_initialize_again}
use ring_buffer.Bindings.Jni
use ring_buffer.Bindings.Jni.{Jvm, LogRecord, returned, aborted, to_java}
use ring_buffer.Bindings.Jni.Handles.{
  JavaCall, creates, reads, closes, writes, shuts_down, Safe, java_run, java_run-Safe,
}
use ring_buffer.Bindings.Jni.Batch.{Batched, java_read_batch-jint}
use ring_buffer.Bindings.Jni.Large.{java_write-too_large}
use ring_buffer.Tests.Memory.{two_slots}
use ring_buffer.Tests.Toy.{toy, three_bytes, one_byte}
use ring_buffer.Tests.Disk.{filled_buffer}
use ring_buffer.Tests.Cursor.{
  at_start, at_start-AtFrames, damaged, damaged_start, damaged_start-AtError,
}

abbrev full_round : Round
full_round = record {
  usage = record { is_high = true; is_low = false; is_full = true };
  notified = false;
  io = λ r. none;
  io_flush = none;
}

abbrev events : List Event
events =
    swift_writes 5 (1 ∷ (2 ∷ [])) 7
    ∷ (rounds full_round ∷ (swift_writes 6 [] 7 ∷ (rounds full_round ∷ [])))

swift_read_next-session_example :
    (lib : Library) × (d : FlushDaemon) × (lib' : Library) × (c : OwnedCursor)
    × (disk : PersistentRingBuffer) × (swift_initialize at_load
          (empty_file "log")
          (empty_file "temp")
          2
          60
          100
        ≡ returns (true, lib))
    × (lib.handle ≡ some d)
    × (get_elem? lib.globals.disks d.disk ≡ some disk)
    × Holds disk []
    × (session d lib events ≡ returns lib')
    × (get_elem? lib'.globals.disks d.disk ≡ some disk)
    × (swift_create_cursor lib' (empty_file "temp") ≡ returns (c, lib'))
    × (c.buffer ≡ d.disk)
    × (Cursor.next 1 disk c.cursor ≡ (ok none, c.cursor))
    × (swift_read_next 1 lib' c ≡ (ok none, c))
swift_read_next-session_example =
    swift_read_next-session "log" (empty_file "temp") (empty_file "temp") 2 60 100 0 events
      (omega arith) (omega arith) (omega arith, (omega arith, tt))

-- A library over one persistent buffer.
abbrev library_of : PersistentRingBuffer → Library
library_of b = record {
  globals = record {
    buffers = [];
    volatile_buffer = some 0;
    disks = b ∷ [];
    persistent_buffer = some 0;
    flush_daemon_running = false;
  };
  handle = none;
}

swift_initialize_again_example :
    (lib' : Library) × (swift_initialize
        (library_of filled_buffer)
        (empty_file "new")
        (empty_file "temp")
        2
        60
        100
      ≡ returns (true, lib'))
    × (lib'.handle ≡ some (record { config = config_of 100; memory = 0; disk = 0 }))
    × (swift_create_cursor lib' (empty_file "temp")
        ≡ returns (record { buffer = 0; cursor = Cursor.new filled_buffer none }, lib'))
swift_initialize_again_example =
    swift_initialize_again "new" (empty_file "temp") (empty_file "temp") 2 60 100 0 0
      (library_of filled_buffer) filled_buffer (omega arith) (omega arith) refl refl refl

abbrev owned_start : Cursor → OwnedCursor
owned_start c = record { buffer = 0; cursor = c }

swift_read_batch-corrupt_example :
    (c' : OwnedCursor) × (swift_read_batch 1 (library_of damaged) (owned_start damaged_start) 5
      ≡ (ok [], c'))
    × (c'.cursor.position.offset ≡ 27)
    × (swift_read_next 1 (library_of damaged) c' ≡ (ok none, c'))
swift_read_batch-corrupt_example =
    swift_read_batch-corrupt 0 (library_of damaged) (owned_start damaged_start) 5 damaged
      (three_bytes ∷ []) 27 invalid_record refl (omega arith) damaged_start-AtError (omega arith)

-- Java with one cursor, at the address 64.
abbrev jvm_of : PersistentRingBuffer → Cursor → Jvm
jvm_of b c = record { library = library_of b; cursors = (64, owned_start c) ∷ [] }

-- Java with a volatile buffer beside it.
abbrev jvm_with_slots : Jvm
jvm_with_slots =
    let m = jvm_of filled_buffer at_start in
    record m {
      library = record m.library {
        globals = record m.library.globals { buffers = (two_slots 0, false) ∷ [] };
      };
    }

-- Two cursors read the first record, one of them is closed, and null is passed.
abbrev java_calls : List JavaCall
java_calls =
    reads 1 64 1 true
    ∷ (creates (empty_file "temp") 96
        ∷ (reads 1 96 1 true
            ∷ (closes 96 ∷ (writes 5 (some (7 ∷ [])) 1 ∷ (reads 1 0 2 true ∷ (shuts_down ∷ []))))))

java_run-Safe_example : Safe (64 ∷ []) (java_run jvm_with_slots java_calls)
unfolding without
java_run-Safe_example =
    java_run-Safe java_calls jvm_with_slots (refl, (tt, (refl, (refl, (tt, (refl, (tt, tt)))))))

java_read_batch-jint_example :
    ((1 < 2 ^ 31)
      × Batched 1
          (jvm_of filled_buffer at_start)
          64
          1
          (owned_start at_start)
          filled_buffer
          (three_bytes ∷ (one_byte ∷ [])))
    ⊎ ((2 ^ 31 ≤ 1) × (Jni.read_batch 1 (jvm_of filled_buffer at_start) 64 1 true ≡ aborted))
unfolding box_at
java_read_batch-jint_example =
    java_read_batch-jint 0 (jvm_of filled_buffer at_start) 64 1 (owned_start at_start) filled_buffer
      (three_bytes ∷ (one_byte ∷ [])) (omega arith) refl refl at_start-AtFrames (omega arith)

-- A library over one volatile buffer, and more data than a slot takes.
abbrev jvm_over_slots : Jvm
jvm_over_slots = record {
  library = record {
    globals = record {
      buffers = (two_slots 0, false) ∷ [];
      volatile_buffer = some 0;
      disks = [];
      persistent_buffer = none;
      flush_daemon_running = false;
    };
    handle = none;
  };
  cursors = [];
}

java_write-too_large_example : Jni.java_write jvm_over_slots 5 (some (replicate 233 0)) 1 ≡ aborted
java_write-too_large_example =
    java_write-too_large jvm_over_slots 5 1 0 (replicate 233 0) (two_slots 0) false refl refl
      (omega arith) (omega arith)
