-- ===== src/Globals/Threads.antt =====
-- The threads of the flush daemon in a process: `start_flush_daemon` and `stop_flush_daemon` of
-- src/lib.rs, with the rounds of the threads in any order between the calls.
pub mod Restart
use ring_buffer.Prelude.{
  ℕ, List, [], ◌∷◌, ◌++◌, Option, none, some, Bool, true, false, if◌then◌else◌, get_elem?, set,
}
use ring_buffer.Platform.{Platform}
use ring_buffer.Memory.Run.{Run, returns, undefined, unfinished, ◌>>=◌}
use ring_buffer.Disk.Outcome.{Outcome, ok, err}
use ring_buffer.Globals.{Globals, stop_flush_daemon}
use ring_buffer.Globals.Persistent.{FileAt}
use ring_buffer.Globals.Flush.{FlushDaemon, Round, start_flush_daemon, thread_round}
use ring_buffer.Daemon.{FlushDaemonConfig}

-- The threads that were spawned, each with whether it still runs.
pub record Process : Type 0 where
  pub globals : Globals
  pub threads : List (FlushDaemon × Bool)

-- The check of the flag by a thread, and its round if it goes on, is one event.
pub data Event : Type 0 where
  starts : FlushDaemonConfig → Event
  stops : Event
  rounds : ℕ → Round → Event

abbrev pub ended : Process → ℕ → FlushDaemon → Process
ended s i d = record s { threads = set s.threads i (d, false) }

-- What a round leaves: a thread that panics ends, and the process goes on.
unfoldable pub after_round : Process → ℕ → FlushDaemon → Outcome (Unit {0}) × Globals → Run Process
after_round s i d (ok _, g) = returns (record s { globals = g })
after_round s i d (err e, g) = returns (ended (record s { globals = g }) i d)
after_round s i d (Outcome.panic, g) = returns (ended (record s { globals = g }) i d)
after_round s i d (Outcome.undefined, g) = undefined
after_round s i d (Outcome.unfinished, g) = unfinished

module _ ⦃p : Platform⦄ where
  unfoldable pub thread_step : Process → ℕ → Round → Option (FlushDaemon × Bool) → Run Process
  thread_step s i r none = returns s
  thread_step s i r (some (d, false)) = returns s
  thread_step s i r (some (d, true)) =
      let round = after_round s i d (thread_round d r s.globals) in
      if s.globals.flush_daemon_running then round else returns (ended s i d)

  -- `temp` is the file of the default persistent buffer.
  unfoldable pub step : FileAt → Process → Event → Run Process
  step temp s (starts config) = start_flush_daemon s.globals temp config >>= λ o.
      returns (record { globals = o.1; threads = s.threads ++ ((o.0, true) ∷ []) })
  step temp s stops = returns (record s { globals = stop_flush_daemon s.globals })
  step temp s (rounds i r) = thread_step s i r (get_elem? s.threads i)

  unfoldable pub run : FileAt → Process → List Event → Run Process
  run temp s [] = returns s
  run temp s (e ∷ es) = step temp s e >>= λ s'. run temp s' es
