-- ===== src/Lib.antt =====
-- The ring buffers of the Rust crate: a volatile buffer of slots in memory and a persistent buffer
-- in a mapped file, with a cursor over the latter, a daemon that moves records from the one to the
-- other, and the interfaces to Swift and Java.
--
-- The parts, and the files that model them:
-- * Record headers, records, the atomic index and the slots (src/memory/mod.rs): Memory/RecordHeader
--   (`RecordHeader`), Memory/Record (`Record`), Memory/Index (`AtomicIndex`), Memory/Slot
--   (`SlotState`, `Slot`).
-- * The volatile buffer (src/memory/volatile.rs): Memory/Volatile has `VolatileRingBuffer`,
--   `Reservation`, `new`, `clone` and `reserve`; Memory/Volatile/Reserved the methods of
--   `Reservation`, its `drop` included; Memory/Volatile/Write `write` and `wait_for_data`;
--   Memory/Volatile/Read `read`. Memory/Volatile/Filled, Reserve and Outcomes say what they do in
--   the states that a new buffer reaches, and Memory/Volatile/History what a client sees.
--   Memory/Volatile/Concurrent has the atomic accesses of `reserve` as the moves of any number of
--   producers; Invariant, Moves, Exclusive, Alone and Consumer below it are their theory, and
--   Overlap adds the accesses of a `read`.
--   Memory/Volatile/Ready is about `read` over slots that are ready, and about the commit of a
--   reservation whose buffer has its slot.
-- * The control block and the record header on disk (src/disk/mod.rs): Disk/ControlBlock and
--   Disk/Header, as structs and as bytes.
-- * The persistent buffer (src/disk/persistent.rs): Disk/Persistent has `write`, `read_at`,
--   `read_all`, `reset_read_position` and `flush`; Disk/Persistent/Open has `new`. The modules below
--   Disk/Persistent build its theory: the invariant, the frames of records in the file, reading them
--   back, wrapping, opening; Disk/Persistent/Crash has a `write` that is cut short. Disk/Queue is the
--   queue that it implements; Disk/Reopen and Disk/Interrupted are about `new`.
-- * The cursor (src/disk/cursor.rs): Disk/Cursor; Batch, Progress, Seek, Tail, Lapped and Corrupt
--   below it are about its methods on the records ahead, on gaps, across laps, on a buffer that is
--   written to, in the lap before the current one, and on a damaged record. Disk/Cursor/Interleaved
--   has a cursor beside the calls of other threads.
-- * The global buffers (src/lib.rs): Globals has `init_memory_buffer`, `get_memory_buffer`, `write`
--   and `reserve`, Globals/Persistent `init_persistent_buffer` and `get_persistent_buffer`,
--   Globals/Flush `start_flush_daemon` and the loop of its thread, Globals/Threads the threads of a
--   process, where the check of the flag and the round behind it are one step. An `Arc` is an index
--   into the buffers that were made.
-- * The flush daemon (src/lib.rs): Daemon has one round of its loop, which reads the volatile buffer
--   and writes to the persistent one; Daemon/Idle says what a round leaves.
--   Daemon/Watermark has `usage_percent` (src/memory/volatile.rs) and the comparisons that a round
--   makes with it, over the operations on `f32` of Daemon/Float; Daemon/Spin is about them.
-- * The interface to Swift (src/ios/mod.rs): Bindings/Ios has every function of it; Bindings has what
--   both interfaces share. Bindings/Session and Bindings/Unread follow a process from its first
--   `swift_initialize` on.
-- * The interface to Java (src/jni/mod.rs): Bindings/Jni has every function of it, over the boxes of
--   Bindings/Boxes; Bindings/Jni/Handles is about the pointers that Java holds.
-- * The example (examples/basic_usage.rs): Examples/Logs has `read_logs`, Examples/BasicUsage `main`
--   over the globals and the daemon. The example imports `types::RecordHeader`, which src/lib.rs does
--   not re-export, and so does not compile: the model is of the example with that name re-exported.
-- Prelude, Bytes and Platform hold what they share; Tests runs the model.
--
-- A method that takes `&self` and changes the buffer takes the buffer and returns it. A method that
-- changes the persistent buffer holds its locks for the whole of its body, so each such call is one
-- step, and a history is a sequence of steps; in Disk/Cursor/Interleaved the steps of others also
-- fall between the two accesses of the cursor's `next`. `reserve` holds no lock: its calls overlap in
-- Memory/Volatile/Concurrent, where each atomic access is a step and the accesses are taken to be
-- sequentially consistent, and so do those of a `read` up to a slot that is ready; all else of the
-- volatile buffer is modelled for calls that do not overlap. Two buffers over one file are left out,
-- but for a process that opens what another left. `Outcome`, `Run` and `Native` are the results of
-- calls: panics are values.
--
-- Raw pointers: `undefined` is a raw read of `read` of the volatile buffer that leaves the data
-- section, and `dangling` a pointer from Java to no live box. The other rules of Rust for raw pointers
-- are left out: the `ptr::read` of a `Header` in `read_at` and the accesses to a `RecordHeader` in a
-- slot take and set the bytes at an address that need not be aligned, as the machine does, and
-- `Reservation::write` changes bytes of a shared slice. No theorem says that these are defined.
-- A slot of a volatile buffer becomes ready only by a `commit` to that buffer, and a reservation of
-- `reserve` is on a copy of it: what Memory/Volatile/Ready says is about `read` alone, whatever brings
-- its buffer about.
--
-- Integers are natural numbers, with the wrap-around of `u32`, `u64` and `usize` written out; the
-- target is little-endian with 64-bit words, and arithmetic is that of a release build. Bytes are
-- numbers, read modulo 256. The checksum of crc32fast, a function of the bytes into `u32`, and the
-- padding of a `repr(C)` struct are the parameter `Platform`; where a theorem needs that the
-- checksum detects a change in the last four bytes, which a CRC of 32 bits does, it says so. What
-- the operating system answers to `open`, `metadata`, `set_len`, `mmap` and `flush` is an argument,
-- as are the clock's reading, the end of a wait, the addresses that the allocator gives and the
-- answers of the Java virtual machine.
--
-- Bounds: a data section has at most 2^62 bytes, so that no position overflows. A vector has at most
-- `isize::MAX` bytes, and memory is not exhausted below that: a volatile buffer has at most 2^54 slots
-- of 256 bytes. Fuel: the loop of `read_all` gets as many rounds as the write position, and each round
-- gains 24 bytes; `next` calls itself behind a gap of 24 bytes, and `reserve` when it blocks, each with
-- the fuel that its theorem names; the loop of the example's `read_logs` gets a round more than there are
-- records, and each takes one at least; `power_from` and `is_power_from` pass through the 64 powers of
-- two of `usize`.
--
-- The bytes that a process which ends in a `write` leaves are taken to be those copied so far, in the
-- order of the copies.
--
-- Not modelled: a `read` that overlaps with other calls once it has found a slot ready, overlapping
-- calls of `commit` and of the overflow queue, poisoned locks, the buffer behind a panic, the texts that
-- generate_swift_interface and generate_kotlin_interface return, what the example prints but for its
-- counts, and the demonstration application. A round of the daemon takes the results of its
-- comparisons of floating-point numbers as arguments but in Daemon/Watermark; of `f32` only the
-- operations are named, and that they are monotone, a product and a quotient by a positive integer.
pub mod Prelude
pub mod Bytes
pub mod Platform
pub mod Memory
pub mod Disk
pub mod Globals
pub mod Daemon
pub mod Bindings
pub mod Examples
pub mod Tests
