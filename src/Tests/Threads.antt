-- ===== src/Tests/Threads.antt =====
-- A daemon that is stopped and started again, at concrete inputs.
use ring_buffer.Prelude.{◌≡◌, refl, List, [], ◌∷◌, none, some, true, false, arith}
use ring_buffer.Memory.Run.{returns}
use ring_buffer.Globals.{Globals}
use ring_buffer.Globals.Quiet.{Quiet, empty_file}
use ring_buffer.Globals.Flush.{FlushDaemon, Round}
use ring_buffer.Globals.Threads.{Event, starts, stops, rounds, run}
use ring_buffer.Globals.Threads.Restart.{one_thread, two_threads, run-restarted}
use ring_buffer.Daemon.{FlushDaemonConfig}
use ring_buffer.Tests.Toy.{toy, small_buffer}
use ring_buffer.Tests.Memory.{two_slots, two_slots-Filled}

abbrev slow : FlushDaemonConfig
slow = record { interval_ms = 1000; max_records_per_flush = 1; increased = 1 }

abbrev fast : FlushDaemonConfig
fast = record { interval_ms = 10; max_records_per_flush = 100; increased = 150 }

abbrev first_thread : FlushDaemon
first_thread = record { config = slow; memory = 0; disk = 0 }

-- A global buffer in which no slot is ready, and a persistent one.
abbrev set_globals : Globals
set_globals = record {
  buffers = (two_slots 2, false) ∷ [];
  volatile_buffer = some 0;
  disks = small_buffer ∷ [];
  persistent_buffer = some 0;
  flush_daemon_running = true;
}

set_globals-Quiet : Quiet 1 first_thread small_buffer set_globals
set_globals-Quiet = record {
  used = 2;
  entry = (two_slots 2, false);
  memory_cell = refl;
  memory_at = refl;
  filled = two_slots-Filled 2 (omega arith);
  disk_cell = refl;
  disk_at = refl;
}

abbrev notified : Round
notified = record {
  usage = record { is_high = true; is_low = false; is_full = true };
  notified = true;
  io = λ r. none;
  io_flush = none;
}

-- A round of each thread.
abbrev both_rounds : List Event
both_rounds = rounds 0 notified ∷ (rounds 1 notified ∷ [])

run-restarted_example :
    (g : Globals) × (g' : Globals) × (run
        (empty_file "temp")
        (one_thread first_thread set_globals)
        (stops ∷ (starts fast ∷ both_rounds))
      ≡ returns (two_threads first_thread true fast g))
    × (run
          (empty_file "temp")
          (one_thread first_thread set_globals)
          (stops ∷ (rounds 0 notified ∷ (starts fast ∷ [])))
        ≡ returns (two_threads first_thread false fast g'))
run-restarted_example =
    run-restarted 1 first_thread small_buffer fast (empty_file "temp") set_globals notified
      both_rounds set_globals-Quiet tt
