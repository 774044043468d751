-- ===== src/Globals/Quiet.antt =====
-- The global buffers while no slot of the volatile one is ready: what writes and rounds of the
-- daemon's thread leave.
use Prim.Native.String.{String}
use ring_buffer.Prelude.{
  ℕ, ◌≤◌, ◌≡◌, refl, ◌∙◌, List, [], none, some, Bool, false, length, set, get_elem?,
  get_elem?-set_self, get_elem?-lt, Bool-cases, inl, inr, if-of_true, if-of_false,
}
use ring_buffer.Platform.{Platform}
use ring_buffer.Memory.Record
use ring_buffer.Memory.Record.{Record}
use ring_buffer.Memory.Run.{returns}
use ring_buffer.Memory.Volatile.{VolatileRingBuffer}
use ring_buffer.Memory.Volatile.Filled.{Filled}
use ring_buffer.Memory.Volatile.History.Steps.{write-Filled}
use ring_buffer.Disk.Outcome.{ok}
use ring_buffer.Disk.Persistent.{PersistentRingBuffer}
use ring_buffer.Disk.Reopen.{succeeds}
use ring_buffer.Globals
use ring_buffer.Globals.{Globals, init_memory_buffer, get_or_init, get_memory_buffer}
use ring_buffer.Globals.Persistent.{FileAt}
use ring_buffer.Globals.Flush.{FlushDaemon, Round, buffers_of, put_back, round_on, thread_round}
use ring_buffer.Daemon.{Buffers, should_flush}
use ring_buffer.Daemon.Idle.{daemon_round-Filled}

-- The globals as the library is loaded.
abbrev pub unset : Globals
unset = record {
  buffers = [];
  volatile_buffer = none;
  disks = [];
  persistent_buffer = none;
  flush_daemon_running = false;
}

abbrev pub empty_file : String → FileAt
empty_file path = record { path = path; io = succeeds; bytes = [] }

module _ ⦃p : Platform⦄ where
  -- The daemon is on the global buffers. No slot of the volatile one is ready, and the persistent
  -- one is `disk`.
  pub record Quiet (k : ℕ) (d : FlushDaemon) (disk : PersistentRingBuffer) (g : Globals)
      : Type 0 where
    pub used : ℕ
    pub entry : VolatileRingBuffer × Bool
    pub memory_cell : g.volatile_buffer ≡ some d.memory
    pub memory_at : get_elem? g.buffers d.memory ≡ some entry
    pub filled : Filled k used entry.0
    pub disk_cell : g.persistent_buffer ≡ some d.disk
    pub disk_at : get_elem? g.disks d.disk ≡ some disk

  pub write-Quiet :
      (k : ℕ) (d : FlushDaemon) (disk : PersistentRingBuffer) (g : Globals) (now : ℕ)
      (bytes : List ℕ) (tag : ℕ)
      → Quiet k d disk g
      → length bytes ≤ 232
      → (o : Bool × Globals) × (Globals.write g now bytes tag ≡ returns o) × Quiet k d disk o.1
  unfolding Globals.write get_memory_buffer get_or_init Record.new
  write-Quiet k d disk g now bytes tag h fits =
      let (o, wrote, n, f, _) =
        write-Filled k h.used h.entry.0 (Record.new now bytes tag) h.entry.1 h.filled fits in
      (
        (o.0, record g { buffers = set g.buffers d.memory (o.1, o.2) }),
        rw (h.memory_cell, h.memory_at, wrote) refl,
        record {
          used = n;
          entry = (o.1, o.2);
          memory_cell = h.memory_cell;
          memory_at =
              get_elem?-set_self g.buffers d.memory (o.1, o.2)
                (get_elem?-lt g.buffers d.memory h.memory_at);
          filled = f;
          disk_cell = h.disk_cell;
          disk_at = h.disk_at;
        },
      )

  round_on-Quiet :
      (k : ℕ) (d : FlushDaemon) (disk : PersistentRingBuffer) (g : Globals) (r : Round)
      → Quiet k d disk g
      → (g' : Globals) × (round_on d r g
            (buffers_of (get_elem? g.buffers d.memory) (get_elem? g.disks d.disk))
          ≡ (ok tt, g'))
        × Quiet k d disk g'
  unfolding round_on buffers_of put_back
  round_on-Quiet k d disk g r h =
      let s : Buffers = record { memory = h.entry.0; signal = h.entry.1; disk = disk } in
      let ran =
        daemon_round-Filled k h.used d.config r.usage r.notified r.io r.io_flush s h.filled in
      let signal = (should_flush d.config r.usage r.notified h.entry.1).1 in
      (
        put_back d g (record s { signal = signal }),
        rw (h.memory_at, h.disk_at, ran) refl,
        record {
          used = h.used;
          entry = (h.entry.0, signal);
          memory_cell = h.memory_cell;
          memory_at =
              get_elem?-set_self g.buffers d.memory (h.entry.0, signal)
                (get_elem?-lt g.buffers d.memory h.memory_at);
          filled = h.filled;
          disk_cell = h.disk_cell;
          disk_at = get_elem?-set_self g.disks d.disk disk (get_elem?-lt g.disks d.disk h.disk_at);
        },
      )

  pub thread_round-Quiet :
      (k : ℕ) (d : FlushDaemon) (disk : PersistentRingBuffer) (g : Globals) (r : Round)
      → Quiet k d disk g
      → (g' : Globals) × (thread_round d r g ≡ (ok tt, g')) × Quiet k d disk g'
  unfolding thread_round
  thread_round-Quiet k d disk g r h = elim (Bool-cases g.flush_daemon_running) [
    | inl running ↦
        let (g', ran, h') = round_on-Quiet k d disk g r h in
        (g', if-of_true _ (ok tt, g) running ∙ ran, h')
    | inr stopped ↦ (g, if-of_false _ (ok tt, g) stopped, h)
  ]
