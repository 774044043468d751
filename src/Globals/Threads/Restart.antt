-- ===== src/Globals/Threads/Restart.antt =====
-- A daemon that is stopped and started again.
use ring_buffer.Prelude.{
  ℕ, zero, suc, ◌≡◌, refl, ap, ◌∙◌, sym, List, [], ◌∷◌, Option, none, some, Bool, true, false,
  if-of_true,
}
use ring_buffer.Platform.{Platform}
use ring_buffer.Memory.Run.{returns, ◌>>=◌}
use ring_buffer.Disk.Outcome.{Outcome, ok}
use ring_buffer.Disk.Persistent.{PersistentRingBuffer}
use ring_buffer.Globals.{Globals, stop_flush_daemon, get_memory_buffer, get_or_init}
use ring_buffer.Globals.Persistent.{FileAt, get_persistent_buffer, get_or_init_persistent}
use ring_buffer.Globals.Flush.{
  FlushDaemon, Round, start_flush_daemon, thread_round, round_on, put_back,
}
use ring_buffer.Globals.Quiet.{Quiet, thread_round-Quiet}
use ring_buffer.Daemon.{FlushDaemonConfig, Buffers}
use ring_buffer.Globals.Threads.{
  Process, Event, starts, stops, rounds, after_round, thread_step, step, run,
}

-- Rounds of the threads, and nothing else.
abbrev pub AllRounds : List Event → Type 0
AllRounds [] = Unit {0}
AllRounds (starts config ∷ es) = ⊥
AllRounds (stops ∷ es) = ⊥
AllRounds (rounds i r ∷ es) = AllRounds es

-- The daemon that a later start makes over the same buffers.
abbrev pub restarted : FlushDaemon → FlushDaemonConfig → FlushDaemon
restarted d config = record d { config = config }

-- A process with one running thread, and with a second one.
abbrev pub one_thread : FlushDaemon → Globals → Process
one_thread d g = record { globals = g; threads = (d, true) ∷ [] }

abbrev pub two_threads : FlushDaemon → Bool → FlushDaemonConfig → Globals → Process
two_threads d runs config g = record {
  globals = g;
  threads = (d, runs) ∷ ((restarted d config, true) ∷ []);
}

module _ ⦃p : Platform⦄ where
  flag-round_on :
      (d : FlushDaemon) (r : Round) (g : Globals) (s : Option Buffers)
      → (round_on d r g s).1.flush_daemon_running ≡ g.flush_daemon_running
  unfolding round_on put_back
  flag-round_on d r g none = refl
  flag-round_on d r g (some s) = refl

  -- A round leaves the flag as it is.
  flag-thread_round :
      (d : FlushDaemon) (r : Round) (g : Globals)
      → g.flush_daemon_running ≡ true
      → (thread_round d r g).1.flush_daemon_running ≡ true
  unfolding thread_round
  flag-thread_round d r g running =
      ap (λ (o : Outcome (Unit {0}) × Globals). o.1.flush_daemon_running)
        (if-of_true _ (ok tt, g) running)
      ∙ flag-round_on d r g _
      ∙ running

  -- The buffers do not depend on the configuration.
  restarted-Quiet :
      (k : ℕ) (d : FlushDaemon) (config : FlushDaemonConfig) (disk : PersistentRingBuffer)
      (g : Globals)
      → Quiet k d disk g
      → Quiet k (restarted d config) disk g
  restarted-Quiet k d config disk g h = record {
    used = h.used;
    entry = h.entry;
    memory_cell = h.memory_cell;
    memory_at = h.memory_at;
    filled = h.filled;
    disk_cell = h.disk_cell;
    disk_at = h.disk_at;
  }

  -- A round of a thread that runs, while the flag is set.
  running-round :
      (k i : ℕ) (d : FlushDaemon) (disk : PersistentRingBuffer) (s : Process) (r : Round)
      → Quiet k d disk s.globals
      → s.globals.flush_daemon_running ≡ true
      → (g : Globals) × (thread_step s i r (some (d, true)) ≡ returns (record s { globals = g }))
        × Quiet k d disk g
        × (g.flush_daemon_running ≡ true)
  unfolding thread_step after_round
  running-round k i d disk s r h running =
      let (g, ran, h') = thread_round-Quiet k d disk s.globals r h in
      (
        g,
        if-of_true _ _ running ∙ ap (after_round s i d) ran,
        h',
        sym (ap (λ (o : Outcome (Unit {0}) × Globals). o.1.flush_daemon_running) ran)
            ∙ flag-thread_round d r s.globals running,
      )

  both-run :
      (k : ℕ) (d : FlushDaemon) (disk : PersistentRingBuffer) (config : FlushDaemonConfig)
      (temp : FileAt) (es : List Event) (g : Globals)
      → Quiet k d disk g
      → g.flush_daemon_running ≡ true
      → AllRounds es
      → (g' : Globals) × (run temp (two_threads d true config g) es
          ≡ returns (two_threads d true config g'))
  unfolding run step thread_step
  both-run k d disk config temp [] g h running all = (g, refl)
  both-run k d disk config temp (starts c ∷ es) g h running all = absurd all
  both-run k d disk config temp (stops ∷ es) g h running all = absurd all
  both-run k d disk config temp (rounds zero r ∷ es) g h running all =
      let (g', ran, h', running') =
        running-round k 0 d disk (two_threads d true config g) r h running in
      let (g'', rest) = both-run k d disk config temp es g' h' running' all in
      (g'', ap (λ m. m >>= λ s. run temp s es) ran ∙ rest)
  both-run k d disk config temp (rounds (suc zero) r ∷ es) g h running all =
      let (g', ran, h', running') =
        running-round k 1 (restarted d config) disk (two_threads d true config g) r
          (restarted-Quiet k d config disk g h) running in
      let (g'', rest) =
        both-run k d disk config temp es g'
          (restarted-Quiet k (restarted d config) d.config disk g' h') running' all in
      (g'', ap (λ m. m >>= λ s. run temp s es) ran ∙ rest)
  both-run k d disk config temp (rounds (suc (suc i)) r ∷ es) g h running all =
      both-run k d disk config temp es g h running all

  -- A start when both global buffers are set.
  starts-again :
      (k : ℕ) (d : FlushDaemon) (disk : PersistentRingBuffer) (config : FlushDaemonConfig)
      (temp : FileAt) (g : Globals)
      → Quiet k d disk g
      → start_flush_daemon g temp config
        ≡ returns (restarted d config, record g { flush_daemon_running = true })
  unfolding start_flush_daemon get_memory_buffer get_or_init get_persistent_buffer
      get_or_init_persistent
  starts-again k d disk config temp g h = rw (h.memory_cell, h.disk_cell) refl

  -- The globals with another flag.
  flagged-Quiet :
      (k : ℕ) (d : FlushDaemon) (disk : PersistentRingBuffer) (g : Globals) (flag : Bool)
      → Quiet k d disk g
      → Quiet k d disk (record g { flush_daemon_running = flag })
  flagged-Quiet k d disk g flag h = record {
    used = h.used;
    entry = h.entry;
    memory_cell = h.memory_cell;
    memory_at = h.memory_at;
    filled = h.filled;
    disk_cell = h.disk_cell;
    disk_at = h.disk_at;
  }

  -- The flush daemon is stopped and started again over the same buffers, no slot of the volatile
  -- one being ready. If its thread makes no round between the two calls, then after any further
  -- rounds of the threads, in any order, both that thread and the new one still run, over the same
  -- buffers. If it makes a round there, it has ended, and only the new one runs.
  pub run-restarted :
      (k : ℕ) (d : FlushDaemon) (disk : PersistentRingBuffer) (config : FlushDaemonConfig)
      (temp : FileAt) (g : Globals) (r : Round) (es : List Event)
      → Quiet k d disk g
      → AllRounds es
      → (g' : Globals) × (g'' : Globals) × (run temp (one_thread d g) (stops ∷ (starts config ∷ es))
          ≡ returns (two_threads d true config g'))
        × (run temp (one_thread d g) (stops ∷ (rounds 0 r ∷ (starts config ∷ [])))
            ≡ returns (two_threads d false config g''))
  unfolding run step thread_step stop_flush_daemon
  run-restarted k d disk config temp g r es h all =
      let stopped = record g { flush_daemon_running = false } in
      let running = record g { flush_daemon_running = true } in
      let again = starts-again k d disk config temp stopped (flagged-Quiet k d disk g false h) in
      let (g', rest) =
        both-run k d disk config temp es running (flagged-Quiet k d disk g true h) refl all in
      (g', running, rw again rest, rw again refl)
