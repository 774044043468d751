-- ===== src/Tests/Examples.antt =====
-- The example at concrete inputs.
use ring_buffer.Prelude.{◌≡◌, List, [], ◌∷◌, none, true, false, arith}
use ring_buffer.Memory.Run.{returns}
use ring_buffer.Disk.Outcome.{ok}
use ring_buffer.Disk.Persistent.{PersistentRingBuffer}
use ring_buffer.Disk.Persistent.Write.{after_write}
use ring_buffer.Disk.Queue.Refine.{Holds, after_write-Holds}
use ring_buffer.Globals.Flush.{Round}
use ring_buffer.Globals.Quiet.{empty_file}
use ring_buffer.Examples.Logs.{no_logs, read_logs}
use ring_buffer.Examples.Logs.Count.{read_logs-Holds}
use ring_buffer.Examples.BasicUsage.{Messages, Event, logs, rounds, main}
use ring_buffer.Examples.BasicUsage.ReadBack.{AllFit, main-reads_none}
use ring_buffer.Tests.Toy.{toy, three_bytes, small_buffer}
use ring_buffer.Tests.Disk.{small_buffer-Holds, three_bytes-IsStorable, control-new}

abbrev one_log : PersistentRingBuffer
one_log = after_write small_buffer three_bytes

one_log-Holds : Holds one_log (three_bytes ∷ [])
one_log-Holds =
    after_write-Holds small_buffer [] three_bytes small_buffer-Holds three_bytes-IsStorable
      (omega (arith, control-new))

read_logs-Holds_example :
    read_logs 1 2 one_log ≡ ok (record { total = 1; info = 1; warning = 0; error = 0; debug = 0 })
read_logs-Holds_example =
    read_logs-Holds 0 2 one_log (three_bytes ∷ []) one_log-Holds (omega arith) (omega arith)

-- Messages of a byte, or none.
abbrev short : Messages
short = record { direct = λ thread i tag. tag ∷ []; reserved = λ thread i. [] }

short-AllFit : AllFit short
short-AllFit = record {
  direct_le = λ thread i tag. omega arith;
  reserved_le = λ thread i. omega arith;
}

abbrev woken : Round
woken = record {
  usage = record { is_high = true; is_low = false; is_full = true };
  notified = true;
  io = λ r. none;
  io_flush = none;
}

-- A direct log, a reserved one, and a round of the daemon that is woken.
abbrev events : List Event
events = logs 0 0 5 ∷ (logs 1 1 6 ∷ (rounds woken ∷ []))

main-reads_none_example :
    main 1 1 short (empty_file "example") (empty_file "temp") events ≡ returns no_logs
main-reads_none_example =
    main-reads_none 0 0 short "example" (empty_file "temp") events short-AllFit
