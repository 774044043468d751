-- ===== src/Examples/BasicUsage.antt =====
-- `main` of examples/basic_usage.rs. The file does not compile as it stands, since `types` of
-- src/lib.rs does not re-export the `RecordHeader` that it imports: this is `main` with that name
-- re-exported. The program's threads are a sequence of events, in the order in which they come to the
-- library; the messages that `format!` makes are arguments.
pub mod Reserved
pub mod ReadBack
use ring_buffer.Prelude.{
  ℕ, ◌*◌, ◌%◌, List, [], ◌∷◌, Option, none, some, ◌==◌, if◌then◌else◌, get_elem?, set, length,
  false,
}
use ring_buffer.Platform.{Platform, as_u32}
use ring_buffer.Memory.RecordHeader
use ring_buffer.Memory.Record.{Record}
use ring_buffer.Memory.Run.{Run, returns, panic, undefined, unfinished, ◌>>=◌, or_panic}
use ring_buffer.Memory.Volatile.{Reservation}
use ring_buffer.Memory.Volatile.Write.{fill}
use ring_buffer.Disk.Outcome.{Outcome, ok, err}
use ring_buffer.Globals
use ring_buffer.Globals.{Globals, init_memory_buffer, get_memory_buffer, stop_flush_daemon}
use ring_buffer.Globals.Persistent.{FileAt, init_persistent_buffer}
use ring_buffer.Globals.Flush.{FlushDaemon, Round, start_flush_daemon, thread_round}
use ring_buffer.Globals.Quiet.{unset}
use ring_buffer.Daemon.{FlushDaemonConfig}
use ring_buffer.Examples.Logs.{Counts, tag_info, tag_warning, tag_error, tag_debug, read_logs}

-- The bytes of the messages: by thread, number and tag, and by thread and number.
pub record Messages : Type 0 where
  pub direct : ℕ → ℕ → ℕ → List ℕ
  pub reserved : ℕ → ℕ → List ℕ

-- A log with its thread, its number and the clock's reading, or a round of the daemon's thread.
pub data Event : Type 0 where
  logs : ℕ → ℕ → ℕ → Event
  rounds : Round → Event

-- The watermark of 50 percent is in the comparisons of a round.
abbrev pub config : FlushDaemonConfig
config = record { interval_ms = 500; max_records_per_flush = 100; increased = 150 }

-- The tag of a direct log.
unfoldable pub tag_of : ℕ → ℕ
tag_of i = if i % 3 == 0 then tag_info else if i % 3 == 1 then tag_warning else tag_error

module _ ⦃p : Platform⦄ where
  -- The record that is written into a reservation, with the `RecordHeader` of src/memory/mod.rs.
  unfoldable pub debug_log : ℕ → List ℕ → Record
  debug_log now bytes = record {
    header = RecordHeader.update_crc (RecordHeader.new now (as_u32 (length bytes)) tag_debug) bytes;
    bytes = bytes;
  }

  -- The reservation written to and committed, if there is one. The flag is the buffer's.
  unfoldable pub log_into : ℕ → List ℕ → Option Reservation × Globals → Run Globals
  log_into now bytes (none, g) = returns g
  log_into now bytes (some res, g) = do
    found ← get_memory_buffer g
    entry ← or_panic (get_elem? found.1.buffers found.0)
    filled ← fill res (debug_log now bytes) entry.1
    returns (record found.1 { buffers = set found.1.buffers found.0 (entry.0, filled.1) })

  -- The body of a thread's loop.
  unfoldable pub log_once : Messages → Globals → ℕ → ℕ → ℕ → Run Globals
  log_once messages g thread i now =
      let bytes = messages.reserved thread i in
      if i % 2 == 0
      then (Globals.write g now (messages.direct thread i (tag_of i)) (tag_of i) >>= λ o.
          returns o.1)
      else (Globals.reserve 1 g (length bytes) false >>= log_into now bytes)

  -- A panic of the daemon's thread is passed on by `join`.
  unfoldable pub after_round : Outcome (Unit {0}) × Globals → Run Globals
  after_round (ok _, g) = returns g
  after_round (err e, g) = panic
  after_round (Outcome.panic, g) = panic
  after_round (Outcome.undefined, g) = undefined
  after_round (Outcome.unfinished, g) = unfinished

  unfoldable pub event_step : Messages → FlushDaemon → Globals → Event → Run Globals
  event_step messages d g (logs thread i now) = log_once messages g thread i now
  event_step messages d g (rounds r) = after_round (thread_round d r g)

  unfoldable pub run : Messages → FlushDaemon → Globals → List Event → Run Globals
  run messages d g [] = returns g
  run messages d g (e ∷ es) = event_step messages d g e >>= λ g'. run messages d g' es

  unfoldable pub counted : Outcome Counts → Run Counts
  counted (ok c) = returns c
  counted (err e) = panic
  counted Outcome.panic = panic
  counted Outcome.undefined = undefined
  counted Outcome.unfinished = unfinished

  -- Of what is printed at the end, the counts. The fuel is that of `read_logs`.
  unfoldable pub main : ℕ → ℕ → Messages → FileAt → FileAt → List Event → Run Counts
  main next_fuel fuel messages file temp es = do
    memory ← init_memory_buffer unset 4096
    disk ← init_persistent_buffer memory.1 file (10 * 1024 * 1024)
    daemon ← start_flush_daemon disk.1 temp config
    g ← run messages daemon.0 daemon.1 es
    let g' = stop_flush_daemon g
    b ← or_panic (get_elem? g'.disks disk.0)
    counted (read_logs next_fuel fuel b)
