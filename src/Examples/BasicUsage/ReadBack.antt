-- ===== src/Examples/BasicUsage/ReadBack.antt =====
-- What the example reads back of its logs.
use Prim.Native.String.{String}
use ring_buffer.Prelude.{
  ℕ, suc, ◌*◌, ◌%◌, ◌^◌, ◌≤◌, ◌≡◌, refl, ap, ◌∙◌, List, [], ◌∷◌, some, false, arith, length, true,
  Bool-cases, inl, inr, if-of_true, if-of_false, ◌==◌,
}
use ring_buffer.Platform.{Platform}
use ring_buffer.Memory.Run.{returns, ◌>>=◌}
use ring_buffer.Memory.Index
use ring_buffer.Memory.Volatile.Filled.{blank, new-blank, blank-Filled}
use ring_buffer.Disk.Persistent.{PersistentRingBuffer}
use ring_buffer.Disk.Reopen.{fresh, new-empty}
use ring_buffer.Globals.{
  Globals, init_memory_buffer, get_or_init, get_memory_buffer, stop_flush_daemon,
}
use ring_buffer.Globals.Persistent.{
  FileAt, init_persistent_buffer, opened_or_panic, get_persistent_buffer, get_or_init_persistent,
}
use ring_buffer.Globals.Flush.{FlushDaemon, start_flush_daemon}
use ring_buffer.Globals.Quiet.{Quiet, empty_file, write-Quiet, thread_round-Quiet}
use ring_buffer.Examples.Logs.{no_logs}
use ring_buffer.Examples.Logs.Count.{read_logs-Holds}
use ring_buffer.Examples.BasicUsage.{
  Messages, Event, logs, rounds, config, tag_of, log_once, after_round, event_step, run, counted,
  main,
}
use ring_buffer.Examples.BasicUsage.Reserved.{log_reserved-Quiet}

-- The messages fit a slot.
pub record AllFit (messages : Messages) : Type 0 where
  pub direct_le : (thread i tag : ℕ) → length (messages.direct thread i tag) ≤ 232
  pub reserved_le : (thread i : ℕ) → length (messages.reserved thread i) ≤ 232

power_4096 : Index.next_power_of_two 4096 ≡ 2 ^ 12
unfolding Index.next_power_of_two Index.power_from
power_4096 = refl

module _ ⦃p : Platform⦄ where
  log_once-Quiet :
      (k : ℕ) (messages : Messages) (d : FlushDaemon) (disk : PersistentRingBuffer) (g : Globals)
      (thread i now : ℕ)
      → AllFit messages
      → Quiet k d disk g
      → (g' : Globals) × (log_once messages g thread i now ≡ returns g') × Quiet k d disk g'
  unfolding log_once
  log_once-Quiet k messages d disk g thread i now fit h = elim (Bool-cases (i % 2 == 0)) [
    | inl even ↦
        let (o, wrote, h') =
          write-Quiet k d disk g now (messages.direct thread i (tag_of i)) (tag_of i) h
            (fit.direct_le thread i (tag_of i)) in
        (o.1, if-of_true _ _ even ∙ ap (λ m. m >>= λ o. returns o.1) wrote, h')
    | inr odd ↦
        let (g', e, h') =
          log_reserved-Quiet k now (messages.reserved thread i) d disk g h
            (fit.reserved_le thread i) in
        (g', if-of_false _ _ odd ∙ e, h')
  ]

  event_step-Quiet :
      (k : ℕ) (messages : Messages) (d : FlushDaemon) (disk : PersistentRingBuffer) (g : Globals)
      (e : Event)
      → AllFit messages
      → Quiet k d disk g
      → (g' : Globals) × (event_step messages d g e ≡ returns g') × Quiet k d disk g'
  unfolding event_step after_round
  event_step-Quiet k messages d disk g (logs thread i now) fit h =
      log_once-Quiet k messages d disk g thread i now fit h
  event_step-Quiet k messages d disk g (rounds r) fit h =
      let (g', ran, h') = thread_round-Quiet k d disk g r h in (g', ap after_round ran, h')

  run-Quiet :
      (k : ℕ) (messages : Messages) (d : FlushDaemon) (disk : PersistentRingBuffer)
      (es : List Event) (g : Globals)
      → AllFit messages
      → Quiet k d disk g
      → (g' : Globals) × (run messages d g es ≡ returns g') × Quiet k d disk g'
  unfolding run
  run-Quiet k messages d disk [] g fit h = (g, refl, h)
  run-Quiet k messages d disk (e ∷ es) g fit h =
      let (g', stepped, h') = event_step-Quiet k messages d disk g e fit h in
      let (g'', ran, h'') = run-Quiet k messages d disk es g' fit h' in
      (g'', ap (λ m. m >>= λ g'. run messages d g' es) stepped ∙ ran, h'')

  -- The globals when the threads start.
  abbrev started : String → Globals
  started path = record {
    buffers = (blank 12, false) ∷ [];
    volatile_buffer = some 0;
    disks = fresh path (10 * 1024 * 1024) ∷ [];
    persistent_buffer = some 0;
    flush_daemon_running = true;
  }

  abbrev the_daemon : FlushDaemon
  the_daemon = record { config = config; memory = 0; disk = 0 }

  started-Quiet :
      (path : String) → Quiet 12 the_daemon (fresh path (10 * 1024 * 1024)) (started path)
  started-Quiet path = record {
    used = 0;
    entry = (blank 12, false);
    memory_cell = refl;
    memory_at = refl;
    filled = blank-Filled 12 (omega arith);
    disk_cell = refl;
    disk_at = refl;
  }

  -- The example does not compile, as `types` does not re-export the `RecordHeader` that it
  -- imports. With that name re-exported, and messages of at most 232 bytes, its `main`, on a new
  -- file, when the system's calls succeed, returns and prints that it has read no record, in all
  -- and by each tag: whatever logs its threads make, in any order, and whatever rounds of the
  -- flush daemon run between them.
  pub main-reads_none :
      (next_fuel fuel : ℕ) (messages : Messages) (path : String) (temp : FileAt) (es : List Event)
      → AllFit messages
      → main (suc next_fuel) (suc fuel) messages (empty_file path) temp es ≡ returns no_logs
  unfolding main init_memory_buffer init_persistent_buffer start_flush_daemon get_memory_buffer
      get_or_init get_persistent_buffer get_or_init_persistent opened_or_panic stop_flush_daemon
      counted
  main-reads_none next_fuel fuel messages path temp es fit =
      let built = new-blank 4096 12 power_4096 (omega arith) in
      let (opened, holds) = new-empty path (10 * 1024 * 1024) (omega arith) in
      let (g, ran, h) =
        run-Quiet 12 messages the_daemon _ es (started path) fit (started-Quiet path) in
      let counts =
        read_logs-Holds next_fuel (suc fuel) (fresh path (10 * 1024 * 1024)) [] holds (omega arith)
          (omega arith) in
      rw (built, opened, ran, h.disk_at, counts) refl
