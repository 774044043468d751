-- ===== src/Tests/Daemon.antt =====
-- The flush daemon at concrete inputs.
use ring_buffer.Prelude.{◌≡◌, none, true, false, arith}
use ring_buffer.Disk.Outcome.{ok}
use ring_buffer.Daemon.{Buffers, FlushDaemonConfig, Usage, daemon_round, should_flush}
use ring_buffer.Daemon.Idle.{daemon_round-Filled}
use ring_buffer.Tests.Toy.{toy, small_buffer}
use ring_buffer.Tests.Memory.{two_slots, two_slots-Filled}

abbrev config : FlushDaemonConfig
config = record { interval_ms = 1000; max_records_per_flush = 1; increased = 1 }

abbrev usage : Usage
usage = record { is_high = false; is_low = false; is_full = false }

abbrev idle : Buffers
idle = record { memory = two_slots 2; signal = true; disk = small_buffer }

daemon_round-Filled_example :
    daemon_round config usage false (λ _. none) none idle
    ≡ (ok tt, record idle { signal = (should_flush config usage false true).1 })
daemon_round-Filled_example =
    daemon_round-Filled 1 2 config usage false (λ _. none) none idle
      (two_slots-Filled 2 (omega arith))
