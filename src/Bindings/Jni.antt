-- ===== src/Bindings/Jni.antt =====
-- The functions that src/jni/mod.rs gives to Java. A `jint` is its 32 bits and a `jlong` its 64
-- bits, as numbers; the watermark is in the comparisons of the daemon's rounds. What the virtual
-- machine answers to the calls of the jni crate is an argument.
pub mod Handles
pub mod Batch
pub mod Large
use ring_buffer.Prelude.{
  ℕ, zero, suc, ◌+◌, ◌-◌, ◌^◌, List, [], ◌∷◌, map, Option, none, some, Bool, true, false, ltb, ◌==◌,
  if◌then◌else◌, get_elem?,
}
use ring_buffer.Platform.{Platform, u32_mod, u64_mod}
use ring_buffer.Memory.Record.{Record}
use ring_buffer.Memory.Run.{Run, ◌>>=◌, or_panic}
use ring_buffer.Disk.Outcome.{Outcome, ok, err}
use ring_buffer.Disk.Persistent.{PersistentRingBuffer}
use ring_buffer.Disk.Cursor
use ring_buffer.Disk.Cursor.{Cursor}
use ring_buffer.Globals
use ring_buffer.Globals.{Globals}
use ring_buffer.Globals.Persistent.{FileAt, get_persistent_buffer}
use ring_buffer.Bindings.{Library, OwnedCursor, initialize, shutdown}
use ring_buffer.Bindings.Boxes.{Boxes, box_at, set_box, drop_box}

-- A call from Java. A panic does not leave an `extern` function: it aborts the process. A pointer
-- to no live box is `dangling`; `undefined` is the behaviour behind another raw pointer, in `read` of
-- the volatile buffer. `unfinished` is no value of the program: a loop was
-- given too little fuel.
pub data Native {ℓ} (A : Type ℓ) : Type ℓ where
  returned : A → Native A
  aborted : Native A
  dangling : Native A
  undefined : Native A
  unfinished : Native A

-- The library, and the boxes of cursors that Java has pointers to.
pub record Jvm : Type 0 where
  pub library : Library
  pub cursors : Boxes OwnedCursor

pub record LogRecord : Type 0 where
  pub bytes : List ℕ
  pub crc32 : ℕ
  pub tag : ℕ
  pub timestamp_us : ℕ

-- The arguments of the constructor: `as i64` and `as i32` keep the bits of these fields.
abbrev pub to_java : Record → LogRecord
to_java r = record {
  bytes = r.bytes;
  crc32 = r.header.crc32;
  tag = r.header.tag;
  timestamp_us = r.header.timestamp_us;
}

-- `as usize` and `as u64` of a `jint`: the sign is extended.
unfoldable pub extended : ℕ → ℕ
extended n = if ltb n (2 ^ 31) then n else n + (u64_mod - u32_mod)

-- The end of an `extern` function.
unfoldable pub native {ℓ κ} : {A : Type ℓ} {B : Type κ} → Run A → (A → B) → Native B
native (Run.returns a) f = returned (f a)
native Run.panic f = aborted
native Run.undefined f = undefined
native Run.unfinished f = unfinished

unfoldable pub java_shutdown : Jvm → Jvm
java_shutdown m = record m { library = shutdown m.library }

-- Frees the box of a pointer that is not null.
unfoldable pub close_cursor : Jvm → ℕ → Native Jvm
close_cursor m ptr = if ptr == 0 then returned m else elim (box_at m.cursors ptr) [
  | none ↦ dangling
  | some c ↦ returned (record m { cursors = drop_box m.cursors ptr })
]

-- The match on the result of `read_batch`. The cursor is forgotten, and not freed, in both
-- branches; the records become an array if the virtual machine answers all calls with a success.
unfoldable pub to_array :
    Jvm
    → ℕ
    → OwnedCursor
    → Bool
    → Outcome (List Record) × Cursor
    → Native (Option (List LogRecord) × Jvm)
to_array m ptr owned vm_ok (ok rs, c) =
    if vm_ok
    then returned (
      some (map to_java rs),
      record m { cursors = set_box m.cursors ptr (record owned { cursor = c }) },
    )
    else aborted
to_array m ptr owned vm_ok (err e, c) =
    returned (none, record m { cursors = set_box m.cursors ptr (record owned { cursor = c }) })
to_array m ptr owned vm_ok (Outcome.panic, c) = aborted
to_array m ptr owned vm_ok (Outcome.undefined, c) = undefined
to_array m ptr owned vm_ok (Outcome.unfinished, c) = unfinished

module _ ⦃p : Platform⦄ where
  -- `none` for a string that the virtual machine does not give.
  unfoldable pub java_initialize : Jvm → Option FileAt → FileAt → ℕ → ℕ → ℕ → Native (Bool × Jvm)
  java_initialize m file temp volatile_buffer_size persistent_buffer_size flush_interval_ms =
      native
        (or_panic file >>= λ file.
          initialize m.library file temp (extended volatile_buffer_size)
            (extended persistent_buffer_size)
            (record {
              interval_ms = extended flush_interval_ms;
              max_records_per_flush = 100;
              increased = 150;
            }))
        (λ o. (o.0, record m { library = o.1 }))

  -- `none` for an array that the virtual machine does not give. `as u32` keeps the bits of the tag.
  unfoldable pub java_write : Jvm → ℕ → Option (List ℕ) → ℕ → Native (Bool × Jvm)
  java_write m now array tag =
      native (or_panic array >>= λ bytes. Globals.write m.library.globals now bytes tag)
        (λ o. (o.0, record m { library = record m.library { globals = o.1 } }))

  -- The persistent buffer of a new cursor, with its `Arc`.
  unfoldable pub cursor_buffer : Globals → FileAt → Run (ℕ × PersistentRingBuffer × Globals)
  cursor_buffer g temp = do
    found ← get_persistent_buffer g temp
    b ← or_panic (get_elem? found.1.disks found.0)
    Run.returns (found.0, b, found.1)

  -- `at` is the address that the allocator gives to the box.
  unfoldable pub create_cursor : Jvm → FileAt → ℕ → Native (ℕ × Jvm)
  create_cursor m temp at = native (cursor_buffer m.library.globals temp) (λ o. (
    at,
    record {
      library = record m.library { globals = o.2 };
      cursors = (at, record { buffer = o.0; cursor = Cursor.new o.1 none }) ∷ m.cursors;
    },
  ))

  -- `read_batch` on the buffer of the cursor.
  unfoldable pub batch_of :
      ℕ → OwnedCursor → ℕ → Option PersistentRingBuffer → Outcome (List Record) × Cursor
  batch_of fuel owned max_count none = (Outcome.panic, owned.cursor)
  batch_of fuel owned max_count (some b) = Cursor.read_batch fuel b owned.cursor max_count

  unfoldable pub read_batch : ℕ → Jvm → ℕ → ℕ → Bool → Native (Option (List LogRecord) × Jvm)
  read_batch fuel m ptr max_count vm_ok =
      if ptr == 0 then returned (none, m) else elim (box_at m.cursors ptr) [
        | none ↦ dangling
        | some owned ↦ to_array m ptr owned vm_ok (
            batch_of fuel owned (extended max_count)
              (get_elem? m.library.globals.disks owned.buffer))
      ]
