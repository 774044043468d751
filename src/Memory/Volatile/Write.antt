-- ===== src/Memory/Volatile/Write.antt =====
-- `VolatileRingBuffer::write` of src/memory/volatile.rs, and `wait_for_data`.
use ring_buffer.Prelude.{
  ℕ, List, [], ◌∷◌, ◌++◌, Option, none, some, Bool, true, false, ltb, if◌then◌else◌, length,
}
use ring_buffer.Platform.{Platform}
use ring_buffer.Memory.Record.{Record}
use ring_buffer.Memory.Run.{Run, returns, ◌>>=◌}
use ring_buffer.Memory.Volatile.{VolatileRingBuffer, Reservation, reserve}
use ring_buffer.Memory.Volatile.Reserved.{write_reserved, commit}

-- The overflow branch of `write`.
unfoldable pub push_overflow : ℕ → List Record → Record → List Record
push_overflow max_overflow [] r = if ltb 0 max_overflow then r ∷ [] else []
push_overflow max_overflow (oldest ∷ queue) r =
    if ltb (length (oldest ∷ queue)) max_overflow
    then (oldest ∷ queue) ++ (r ∷ [])
    else queue ++ (r ∷ [])

module _ ⦃p : Platform⦄ where
  -- A record written into a reservation, and the commit.
  unfoldable pub fill : Reservation → Record → Bool → Run (Reservation × Bool)
  fill res r signal = write_reserved res r.header r.bytes >>= λ res'. commit res' signal

  -- The branches of `write` behind `reserve`: the result, the buffer and the flag.
  unfoldable pub finish_write :
      Record
      → Bool
      → Option Reservation × VolatileRingBuffer
      → Run (Bool × VolatileRingBuffer × Bool)
  finish_write r signal (some res, b) = fill res r signal >>= λ filled. returns (true, b, filled.1)
  finish_write r signal (none, b) =
      returns (
        false,
        record b { overflow_queue = push_overflow b.max_overflow b.overflow_queue r },
        signal,
      )

  unfoldable pub write : VolatileRingBuffer → Record → Bool → Run (Bool × VolatileRingBuffer × Bool)
  write b r signal = reserve 1 b (length r.bytes) false >>= finish_write r signal

-- `notify_consumer` sets the flag. `wait_for_data` clears it; where it was not set, the answer of
-- the condition variable to a wait with a timeout is an argument, and a wait without one ends by a
-- notification.
unfoldable pub wait_for_data : Bool → Option ℕ → Bool → Bool × Bool
wait_for_data true timeout_ms notified = (true, false)
wait_for_data false (some timeout) notified = (notified, false)
wait_for_data false none notified = (true, false)
