-- ===== src/Memory/Volatile/Read.antt =====
-- `VolatileRingBuffer::read` of src/memory/volatile.rs.
use ring_buffer.Prelude.{
  ℕ, zero, suc, ◌+◌, ◌*◌, List, [], ◌∷◌, ◌++◌, Option, none, some, Bool, false, ltb, ◌==◌,
  if◌then◌else◌, length, get_elem?, set,
}
use ring_buffer.Bytes.{slice}
use ring_buffer.Platform.{Platform, add64}
use ring_buffer.Memory.RecordHeader
use ring_buffer.Memory.RecordHeader.{RecordHeader}
use ring_buffer.Memory.Record.{Record}
use ring_buffer.Memory.Run.{Run, returns, ◌>>=◌, or_panic, or_undefined}
use ring_buffer.Memory.Index
use ring_buffer.Memory.Index.{AtomicIndex}
use ring_buffer.Memory.Slot
use ring_buffer.Memory.Slot.{Slot, SlotState}
use ring_buffer.Memory.Volatile.{VolatileRingBuffer, Reservation, reserve}
use ring_buffer.Memory.Volatile.Write.{fill}

-- The local variables of the consumer's loop.
pub record Reading : Type 0 where
  pub buffer : VolatileRingBuffer
  pub cons_seq : ℕ
  pub records : List Record
  pub processed : ℕ

module _ ⦃p : Platform⦄ where
  -- The record in a slot. Its header is read through a raw pointer, and as many bytes behind it are
  -- copied as the header says: nothing compares this number with the end of the data section.
  unfoldable pub read_slot : VolatileRingBuffer → ℕ → Run Record
  read_slot b slot_idx =
      let pos = slot_idx * b.slot_size in
      or_undefined (slice b.memory pos RecordHeader.header_size) >>= λ bs.
      (let header = RecordHeader.from_bytes bs in
        or_undefined (slice b.memory (pos + RecordHeader.header_size) header.size) >>= λ bytes.
        returns (record { header = header; bytes = bytes }))

  -- The body of the loop for a ready slot behind the copy of its record: the checksum is verified,
  -- and the slot goes to `Consumed` and on to `Empty`.
  unfoldable pub consume : Reading → ℕ → Slot → Record → Reading
  consume s slot_idx slot r =
      let slot' = Slot.set_state (Slot.set_state slot SlotState.consumed) SlotState.empty in
      let good = RecordHeader.verify_crc r.header r.bytes in
      record {
        buffer = record s.buffer { slots = set s.buffer.slots slot_idx slot' };
        cons_seq = add64 s.cons_seq 1;
        records = if good then s.records ++ (r ∷ []) else s.records;
        processed = add64 s.processed 1;
      }

  -- A slot is ready to read under the sequence number that is looked for.
  unfoldable pub is_ready : Slot → ℕ → Bool
  is_ready slot cons_seq = elim (Slot.state slot) [
    | SlotState.ready ↦ slot.seq == cons_seq
    | _ ↦ false
  ]

  -- `for _ in 0..max_slots_to_check`, with its `break`.
  unfoldable pub read_loop : ℕ → Reading → Run Reading
  read_loop zero s = returns s
  read_loop (suc left) s =
      let slot_idx = Index.physical_index s.buffer.cons_seq s.cons_seq in
      or_panic (get_elem? s.buffer.slots slot_idx) >>= λ slot.
      (let rest = read_slot s.buffer slot_idx >>= λ r. read_loop left (consume s slot_idx slot r) in
        if is_ready slot s.cons_seq then rest else returns s)

  -- One round of the loop over the overflow queue, whose first record is `r`: it goes into a
  -- reservation and the rounds go on, or it stays and they end.
  unfoldable pub drain_round :
      (VolatileRingBuffer → Bool → Run (VolatileRingBuffer × Bool))
      → Record
      → List Record
      → Bool
      → Option Reservation × VolatileRingBuffer
      → Run (VolatileRingBuffer × Bool)
  drain_round again r queue signal (some res, b) = fill res r signal >>= λ filled. again b filled.1
  drain_round again r queue signal (none, b) =
      returns (record b { overflow_queue = r ∷ queue }, signal)

  -- `while let Some(record) = queue.pop_front()`.
  unfoldable pub drain : List Record → VolatileRingBuffer → Bool → Run (VolatileRingBuffer × Bool)
  drain [] b signal = returns (record b { overflow_queue = [] }, signal)
  drain (r ∷ queue) b signal =
      reserve 1 b (length r.bytes) false
      >>= drain_round (λ b' signal'. drain queue b' signal') r queue signal

  -- What follows the loop, if it has processed a slot.
  unfoldable pub finish_read : Bool → Reading → Run (List Record × VolatileRingBuffer × Bool)
  finish_read signal s =
      if ltb 0 s.processed
      then (drain s.buffer.overflow_queue
            (record s.buffer { cons_seq = Index.store s.buffer.cons_seq s.cons_seq }) signal
          >>= λ drained. returns (s.records, drained.0, drained.1))
      else returns (s.records, s.buffer, signal)

  abbrev pub start_reading : VolatileRingBuffer → Reading
  start_reading b = record {
    buffer = b;
    cons_seq = Index.load b.cons_seq;
    records = [];
    processed = 0;
  }

  unfoldable pub read : VolatileRingBuffer → Bool → Run (List Record × VolatileRingBuffer × Bool)
  read b signal = read_loop b.capacity (start_reading b) >>= finish_read signal
