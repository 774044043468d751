-- ===== src/Memory/Volatile/Ready/Loop.antt =====
-- The loop of `read` over ready slots, and `read` itself.
use ring_buffer.Prelude.{
  ℕ, zero, suc, ◌+◌, ◌≤◌, ◌<◌, ◌≡◌, refl, ap, List, [], ◌++◌, Bool, if-of_false, length,
}
use ring_buffer.Platform.{Platform}
use ring_buffer.Memory.RecordHeader
use ring_buffer.Memory.Record.{Record}
use ring_buffer.Memory.Run.{returns, ◌>>=◌}
use ring_buffer.Memory.Index
use ring_buffer.Memory.Slot
use ring_buffer.Memory.Slot.{Slot, SlotState}
use ring_buffer.Memory.Volatile.{VolatileRingBuffer}
use ring_buffer.Memory.Volatile.Read.{Reading, read_loop, finish_read, start_reading, read}
use ring_buffer.Memory.Volatile.Ready.{with_slots, IsEmptied, ReadyFrom, verified}

module _ ⦃p : Platform⦄ where
  -- What the loop leaves of the records that it reads.
  pub record Consumed (s : Reading) (rs : List Record) (s' : Reading) : Type 0 where
    pub cons_eq : s'.cons_seq ≡ s.cons_seq + length rs
    pub records_eq : s'.records ≡ s.records ++ verified rs
    pub processed_eq : s'.processed ≡ s.processed + length rs
    pub buffer_eq : s'.buffer ≡ with_slots s.buffer s'.buffer.slots
    pub rest : ReadyFrom s'.buffer s'.cons_seq []
    pub emptied : (i : ℕ) → s.cons_seq ≤ i → i < s'.cons_seq → IsEmptied s'.buffer i
    pub kept : (i : ℕ) → IsEmptied s.buffer i → IsEmptied s'.buffer i

  read_loop-stop :
      (left : ℕ) (s : Reading) → ReadyFrom s.buffer s.cons_seq [] → read_loop left s ≡ returns s
  unfolding read_loop
  read_loop-stop zero s h = refl
  read_loop-stop (suc left) s (slot, at, idle) = rw at (if-of_false _ (returns s) idle)

  -- No slot is ready: nothing changes.
  pub read-idle :
      (b : VolatileRingBuffer) (signal : Bool)
      → ReadyFrom b b.cons_seq.value []
      → read b signal ≡ returns ([], b, signal)
  unfolding read finish_read
  read-idle b signal h =
      ap (λ m. m >>= finish_read signal) (read_loop-stop b.capacity (start_reading b) h)

  -- The buffer behind the loop, if it has processed a slot.
  abbrev pub advanced : Reading → VolatileRingBuffer
  advanced s = record s.buffer {
    cons_seq = Index.store s.buffer.cons_seq s.cons_seq;
    overflow_queue = [];
  }
