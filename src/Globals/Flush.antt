-- ===== src/Globals/Flush.antt =====
-- `start_flush_daemon` of src/lib.rs over the global buffers, and the rounds of its thread.
use ring_buffer.Prelude.{ℕ, Option, none, some, Bool, true, if◌then◌else◌, get_elem?, set}
use ring_buffer.Platform.{Platform}
use ring_buffer.Memory.Run.{Run, returns, ◌>>=◌}
use ring_buffer.Memory.Volatile.{VolatileRingBuffer}
use ring_buffer.Disk.Outcome.{Outcome, ok, panic}
use ring_buffer.Disk.Persistent.{PersistentRingBuffer}
use ring_buffer.Globals.{Globals, get_memory_buffer}
use ring_buffer.Globals.Persistent.{FileAt, get_persistent_buffer}
use ring_buffer.Daemon.{FlushDaemonConfig, Usage, Buffers, daemon_round}

-- `FlushDaemonConfig::default`; the watermark of 75 percent is in the comparisons of a round.
abbrev pub default_config : FlushDaemonConfig
default_config = record { interval_ms = 1000; max_records_per_flush = 100; increased = 150 }

-- What the thread of the daemon has taken with it: its configuration and the two buffers.
pub record FlushDaemon : Type 0 where
  pub config : FlushDaemonConfig
  pub memory : ℕ
  pub disk : ℕ

-- What the thread finds in a round: the usage, whether its wait ends by a notification, and the
-- answers of the system to the `flush` of each write and to the one behind the loop.
pub record Round : Type 0 where
  pub usage : Usage
  pub notified : Bool
  pub io : ℕ → Option ℕ
  pub io_flush : Option ℕ

-- The buffers of the daemon in the globals, and back.
unfoldable pub buffers_of :
    Option (VolatileRingBuffer × Bool) → Option PersistentRingBuffer → Option Buffers
buffers_of (some (memory, signal)) (some disk) =
    some (record { memory = memory; signal = signal; disk = disk })
buffers_of (some _) none = none
buffers_of none disk = none

unfoldable pub put_back : FlushDaemon → Globals → Buffers → Globals
put_back d g s = record g {
  buffers = set g.buffers d.memory (s.memory, s.signal);
  disks = set g.disks d.disk s.disk;
}

module _ ⦃p : Platform⦄ where
  unfoldable pub start_flush_daemon :
      Globals → FileAt → FlushDaemonConfig → Run (FlushDaemon × Globals)
  start_flush_daemon g temp config = do
    memory ← get_memory_buffer (record g { flush_daemon_running = true })
    disk ← get_persistent_buffer memory.1 temp
    returns (record { config = config; memory = memory.0; disk = disk.0 }, disk.1)

  unfoldable pub round_on :
      FlushDaemon → Round → Globals → Option Buffers → Outcome (Unit {0}) × Globals
  round_on d r g none = (panic, g)
  round_on d r g (some s) =
      let (result, s') = daemon_round d.config r.usage r.notified r.io r.io_flush s in
      (result, put_back d g s')

  -- One round of the loop of the thread, or its end.
  unfoldable pub thread_round : FlushDaemon → Round → Globals → Outcome (Unit {0}) × Globals
  thread_round d r g =
      let round =
        round_on d r g (buffers_of (get_elem? g.buffers d.memory) (get_elem? g.disks d.disk)) in
      if g.flush_daemon_running then round else (ok tt, g)
