-- ===== src/Bindings/Ios.antt =====
-- The functions that src/ios/mod.rs gives to Swift. A `u32` is a number below 2^32, which `as usize`
-- keeps; the watermark is in the comparisons of the daemon's rounds.
pub mod Corrupt
use ring_buffer.Prelude.{
  ℕ, List, [], ◌∷◌, map, Option, none, some, Bool, true, false, get_elem?, set,
}
use ring_buffer.Platform.{Platform}
use ring_buffer.Memory.Record.{Record}
use ring_buffer.Memory.Run.{Run, returns, ◌>>=◌, or_panic}
use ring_buffer.Disk.Outcome.{Outcome, ok, err, panic, undefined, unfinished}
use ring_buffer.Disk.Persistent.{PersistentRingBuffer}
use ring_buffer.Disk.Cursor
use ring_buffer.Disk.Cursor.{Cursor}
use ring_buffer.Globals
use ring_buffer.Globals.{Globals}
use ring_buffer.Globals.Persistent.{FileAt, get_persistent_buffer}
use ring_buffer.Daemon.{FlushDaemonConfig}
use ring_buffer.Bindings.{Library, OwnedCursor, initialize, shutdown}

pub record SwiftLogRecord : Type 0 where
  pub bytes : List ℕ
  pub crc32 : ℕ
  pub timestamp_us : ℕ
  pub tag : ℕ

abbrev pub to_swift : Record → SwiftLogRecord
to_swift r = record {
  bytes = r.bytes;
  crc32 = r.header.crc32;
  timestamp_us = r.header.timestamp_us;
  tag = r.header.tag;
}

-- The configuration that `swift_initialize` makes.
abbrev pub config_of : ℕ → FlushDaemonConfig
config_of flush_interval_ms = record {
  interval_ms = flush_interval_ms;
  max_records_per_flush = 100;
  increased = 150;
}

unfoldable pub swift_shutdown : Library → Library
swift_shutdown lib = shutdown lib

-- The matches on the results of the cursor's methods.
unfoldable pub swift_next :
    Outcome (Option Record) × Cursor → Outcome (Option SwiftLogRecord) × Cursor
swift_next (ok (some r), c) = (ok (some (to_swift r)), c)
swift_next (ok none, c) = (ok none, c)
swift_next (err e, c) = (ok none, c)
swift_next (panic, c) = (panic, c)
swift_next (undefined, c) = (undefined, c)
swift_next (unfinished, c) = (unfinished, c)

unfoldable pub swift_records :
    Outcome (List Record) × Cursor → Outcome (List SwiftLogRecord) × Cursor
swift_records (ok rs, c) = (ok (map to_swift rs), c)
swift_records (err e, c) = (ok [], c)
swift_records (panic, c) = (panic, c)
swift_records (undefined, c) = (undefined, c)
swift_records (unfinished, c) = (unfinished, c)

unfoldable pub swift_committed : Outcome (Unit {0}) → Outcome Bool
swift_committed (ok _) = ok true
swift_committed (err e) = ok false
swift_committed panic = panic
swift_committed undefined = undefined
swift_committed unfinished = unfinished

-- The buffer of a cursor, in the state in which the call finds it.
abbrev pub buffer_at : Library → OwnedCursor → Option PersistentRingBuffer
buffer_at lib c = get_elem? lib.globals.disks c.buffer

-- A method of the cursor on that buffer.
unfoldable pub with_buffer {ℓ} :
    {A : Type ℓ}
    → OwnedCursor
    → Option PersistentRingBuffer
    → (PersistentRingBuffer → Cursor → Outcome A × Cursor)
    → Outcome A × OwnedCursor
with_buffer c none method = (panic, c)
with_buffer c (some b) method =
    let (result, cursor) = method b c.cursor in (result, record c { cursor = cursor })

-- `seek_to_end`, whose result is dropped.
unfoldable pub swift_reset_cursor : Library → OwnedCursor → Outcome (Unit {0}) × OwnedCursor
swift_reset_cursor lib c =
    with_buffer c (buffer_at lib c) (λ b cursor. (ok tt, Cursor.seek_to_end b cursor))

module _ ⦃p : Platform⦄ where
  unfoldable pub swift_initialize : Library → FileAt → FileAt → ℕ → ℕ → ℕ → Run (Bool × Library)
  swift_initialize lib file temp volatile_buffer_size persistent_buffer_size flush_interval_ms =
      initialize lib file temp volatile_buffer_size persistent_buffer_size
        (config_of flush_interval_ms)

  unfoldable pub swift_write : Library → ℕ → List ℕ → ℕ → Run (Bool × Library)
  swift_write lib now bytes tag =
      Globals.write lib.globals now bytes tag >>= λ o. returns (o.0, record lib { globals = o.1 })

  unfoldable pub swift_create_cursor : Library → FileAt → Run (OwnedCursor × Library)
  swift_create_cursor lib temp = do
    found ← get_persistent_buffer lib.globals temp
    b ← or_panic (get_elem? found.1.disks found.0)
    returns
        (record { buffer = found.0; cursor = Cursor.new b none }, record lib { globals = found.1 })

  unfoldable pub swift_read_next :
      ℕ → Library → OwnedCursor → Outcome (Option SwiftLogRecord) × OwnedCursor
  swift_read_next fuel lib c =
      with_buffer c (buffer_at lib c) (λ b cursor. swift_next (Cursor.next fuel b cursor))

  unfoldable pub swift_read_batch :
      ℕ → Library → OwnedCursor → ℕ → Outcome (List SwiftLogRecord) × OwnedCursor
  swift_read_batch fuel lib c max_count =
      with_buffer c (buffer_at lib c)
        (λ b cursor. swift_records (Cursor.read_batch fuel b cursor max_count))

  unfoldable pub commit_on :
      Library → OwnedCursor → Option ℕ → Option PersistentRingBuffer → Outcome Bool × Library
  commit_on lib c io none = (panic, lib)
  commit_on lib c io (some b) =
      let (result, b') = Cursor.commit b c.cursor io in
      (
        swift_committed result,
        record lib { globals = record lib.globals { disks = set lib.globals.disks c.buffer b' } },
      )

  unfoldable pub swift_commit_cursor : Library → OwnedCursor → Option ℕ → Outcome Bool × Library
  swift_commit_cursor lib c io = commit_on lib c io (buffer_at lib c)
