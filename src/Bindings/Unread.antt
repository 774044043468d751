-- ===== src/Bindings/Unread.antt =====
-- What a Swift program reads back of what it has written.
use Prim.Native.String.{String}
use ring_buffer.Prelude.{
  ℕ, suc, ◌++◌, ◌^◌, ◌≤◌, ◌<◌, ◌≡◌, refl, List, [], ◌∷◌, none, some, true, false, arith, get_elem?,
}
use ring_buffer.Platform.{Platform}
use ring_buffer.Memory.Run.{returns}
use ring_buffer.Memory.Index.Powers.{next_power_of_two_lem}
use ring_buffer.Memory.Volatile.Filled.{blank, new-blank, blank-Filled}
use ring_buffer.Disk.Outcome.{ok}
use ring_buffer.Disk.Persistent.{PersistentRingBuffer}
use ring_buffer.Disk.Queue.Refine.{Holds}
use ring_buffer.Disk.Reopen.{fresh, new-empty}
use ring_buffer.Disk.Cursor
use ring_buffer.Disk.Cursor.{Cursor}
use ring_buffer.Disk.Cursor.Progress.{next-done}
use ring_buffer.Disk.Cursor.Batch.{new-AtFrames}
use ring_buffer.Globals.{Globals, init_memory_buffer, get_or_init, get_memory_buffer}
use ring_buffer.Globals.First.{made, get_elem?-more}
use ring_buffer.Globals.Persistent.{
  FileAt, init_persistent_buffer, get_or_init_persistent, get_persistent_buffer, opened_or_panic,
}
use ring_buffer.Globals.Flush.{FlushDaemon, start_flush_daemon}
use ring_buffer.Globals.Quiet.{Quiet, empty_file}
use ring_buffer.Bindings.{Library, OwnedCursor, initialize}
use ring_buffer.Bindings.Ios.{
  config_of, swift_initialize, swift_create_cursor, swift_read_next, swift_next, with_buffer,
}
use ring_buffer.Bindings.Session.{Event, AllFit, session, at_load, session-Quiet}

module _ ⦃p : Platform⦄ where
  -- The daemon that the first call of `swift_initialize` starts.
  abbrev pub first_daemon : ℕ → FlushDaemon
  first_daemon flush_interval_ms = record {
    config = config_of flush_interval_ms;
    memory = 0;
    disk = 0;
  }

  initialize-Quiet :
      (path : String) (temp : FileAt) (capacity size flush_interval_ms : ℕ)
      → capacity < 2 ^ 32
      → size < 2 ^ 32
      → (lib : Library) × (swift_initialize at_load
            (empty_file path)
            temp
            capacity
            size
            flush_interval_ms
          ≡ returns (true, lib))
        × (lib.handle ≡ some (first_daemon flush_interval_ms))
        × (k : ℕ) × Quiet k (first_daemon flush_interval_ms) (fresh path size) lib.globals
  unfolding swift_initialize initialize init_memory_buffer init_persistent_buffer start_flush_daemon
      get_memory_buffer get_or_init get_persistent_buffer get_or_init_persistent opened_or_panic
  initialize-Quiet path temp capacity size flush_interval_ms small_capacity small_size =
      let (k, power, _, next) = next_power_of_two_lem capacity (omega (arith, small_capacity)) in
      let bound : k ≤ 54 = next.least 54 (omega arith) (omega (arith, small_capacity)) in
      let built = new-blank capacity k power bound in
      let opened = (new-empty path size (omega (arith, small_size))).0 in
      let globals : Globals = record {
        buffers = (blank k, false) ∷ [];
        volatile_buffer = some 0;
        disks = fresh path size ∷ [];
        persistent_buffer = some 0;
        flush_daemon_running = true;
      } in
      (
        record { globals = globals; handle = some (first_daemon flush_interval_ms) },
        rw (built, opened) refl,
        refl,
        k,
        record {
          used = 0;
          entry = (blank k, false);
          memory_cell = refl;
          memory_at = refl;
          filled = blank-Filled k bound;
          disk_cell = refl;
          disk_at = refl;
        },
      )

  create_cursor-Quiet :
      (k : ℕ) (d : FlushDaemon) (disk : PersistentRingBuffer) (lib : Library) (temp : FileAt)
      → Quiet k d disk lib.globals
      → swift_create_cursor lib temp
        ≡ returns (record { buffer = d.disk; cursor = Cursor.new disk none }, lib)
  unfolding swift_create_cursor get_persistent_buffer get_or_init_persistent
  create_cursor-Quiet k d disk lib temp h = rw (h.disk_cell, h.disk_at) refl

  read_next-Quiet :
      (k fuel : ℕ) (d : FlushDaemon) (disk : PersistentRingBuffer) (lib : Library)
      → Quiet k d disk lib.globals
      → Holds disk []
      → let c : OwnedCursor = record { buffer = d.disk; cursor = Cursor.new disk none } in
        swift_read_next (suc fuel) lib c ≡ (ok none, c)
  unfolding swift_read_next swift_next with_buffer
  read_next-Quiet k fuel d disk lib h holds =
      rw (h.disk_at, next-done fuel disk (Cursor.new disk none) (new-AtFrames disk [] holds).end)
        refl

  -- As its first call a process makes `swift_initialize`, with an empty file at a path and sizes
  -- that are a `u32`, and the system's calls succeed. Then `swift_write` of data of at most 232
  -- bytes and rounds of the daemon's thread follow in any order, as many as one likes, whatever a
  -- round finds. All of this returns. The persistent buffer of the daemon, with the bytes of its
  -- file, is then as `swift_initialize` left it, valid and without an unread record: nothing that
  -- was written reaches it. `swift_create_cursor` returns a cursor on it, and `swift_read_next` of
  -- this cursor finds no record because the cursor is at the end, not for an error.
  pub swift_read_next-session :
      (path : String) (temp temp' : FileAt) (capacity size flush_interval_ms fuel : ℕ)
      (es : List Event)
      → capacity < 2 ^ 32
      → size < 2 ^ 32
      → AllFit es
      → (lib : Library) × (d : FlushDaemon) × (lib' : Library) × (c : OwnedCursor)
        × (disk : PersistentRingBuffer) × (swift_initialize at_load
              (empty_file path)
              temp
              capacity
              size
              flush_interval_ms
            ≡ returns (true, lib))
        × (lib.handle ≡ some d)
        × (get_elem? lib.globals.disks d.disk ≡ some disk)
        × Holds disk []
        × (session d lib es ≡ returns lib')
        × (get_elem? lib'.globals.disks d.disk ≡ some disk)
        × (swift_create_cursor lib' temp' ≡ returns (c, lib'))
        × (c.buffer ≡ d.disk)
        × (Cursor.next (suc fuel) disk c.cursor ≡ (ok none, c.cursor))
        × (swift_read_next (suc fuel) lib' c ≡ (ok none, c))
  swift_read_next-session path temp temp' capacity size flush_interval_ms fuel es small_capacity
        small_size fits =
      let (lib, started, handle, k, h) =
        initialize-Quiet path temp capacity size flush_interval_ms small_capacity small_size in
      let d = first_daemon flush_interval_ms in
      let disk = fresh path size in
      let holds = (new-empty path size (omega (arith, small_size))).1 in
      let (lib', ran, h') = session-Quiet k d disk es lib h fits in
      (
        lib,
        d,
        lib',
        record { buffer = d.disk; cursor = Cursor.new disk none },
        disk,
        started,
        handle,
        h.disk_at,
        holds,
        ran,
        h'.disk_at,
        create_cursor-Quiet k d disk lib' temp' h',
        refl,
        next-done fuel disk (Cursor.new disk none) (new-AtFrames disk [] holds).end,
        read_next-Quiet k fuel d disk lib' h' holds,
      )

  -- When both global buffers are set, `swift_initialize` with an empty file at a path and sizes
  -- that are a `u32` returns true if the system's calls succeed, but the daemon that it starts and
  -- the cursors made after it are on the buffers that were set before, not on the file at that
  -- path.
  pub swift_initialize_again :
      (path : String) (temp temp' : FileAt) (capacity size flush_interval_ms m at : ℕ)
      (lib : Library) (disk : PersistentRingBuffer)
      → capacity < 2 ^ 32
      → size < 2 ^ 32
      → lib.globals.volatile_buffer ≡ some m
      → lib.globals.persistent_buffer ≡ some at
      → get_elem? lib.globals.disks at ≡ some disk
      → (lib' : Library) × (swift_initialize lib
            (empty_file path)
            temp
            capacity
            size
            flush_interval_ms
          ≡ returns (true, lib'))
        × (lib'.handle
            ≡ some (record { config = config_of flush_interval_ms; memory = m; disk = at }))
        × (swift_create_cursor lib' temp'
            ≡ returns (record { buffer = at; cursor = Cursor.new disk none }, lib'))
  unfolding swift_initialize initialize init_memory_buffer init_persistent_buffer start_flush_daemon
      get_memory_buffer get_or_init get_persistent_buffer get_or_init_persistent opened_or_panic
      swift_create_cursor
  swift_initialize_again path temp temp' capacity size flush_interval_ms m at lib disk
        small_capacity small_size memory_cell disk_cell disk_at =
      let (b, built) = made capacity (omega (arith, small_capacity)) in
      let opened = (new-empty path size (omega (arith, small_size))).0 in
      let globals : Globals = record {
        buffers = lib.globals.buffers ++ ((b, false) ∷ []);
        volatile_buffer = some m;
        disks = lib.globals.disks ++ (fresh path size ∷ []);
        persistent_buffer = some at;
        flush_daemon_running = true;
      } in
      let still_at = get_elem?-more lib.globals.disks (fresh path size ∷ []) at disk disk_at in
      (
        record {
          globals = globals;
          handle = some (record { config = config_of flush_interval_ms; memory = m; disk = at });
        },
        rw (built, opened, memory_cell, disk_cell) refl,
        refl,
        rw still_at refl,
      )
