-- ===== src/Memory/Volatile/Reserved.antt =====
-- The methods of `Reservation` in src/memory/volatile.rs: `write`, `commit` and `drop`.
use ring_buffer.Prelude.{ℕ, ◌+◌, ◌*◌, List, Bool, true, leb, if◌then◌else◌, length, get_elem?, set}
use ring_buffer.Bytes.{overwrite}
use ring_buffer.Platform.{Platform, sub64}
use ring_buffer.Memory.RecordHeader
use ring_buffer.Memory.RecordHeader.{RecordHeader}
use ring_buffer.Memory.Run.{Run, returns, panic, ◌>>=◌, or_panic}
use ring_buffer.Memory.Slot
use ring_buffer.Memory.Slot.{Slot, SlotState}
use ring_buffer.Memory.Volatile.{Reservation}

module _ ⦃p : Platform⦄ where
  -- The header and the data written through raw pointers into the reservation's own buffer.
  unfoldable pub with_record : Reservation → RecordHeader → List ℕ → Reservation
  with_record r header bytes =
      let pos = r.slot_idx * r.buffer.slot_size in
      let with_header = overwrite r.buffer.memory pos (RecordHeader.as_bytes header) in
      let memory = overwrite with_header (pos + RecordHeader.header_size) bytes in
      record r { buffer = record r.buffer { memory = memory } }

  -- `Reservation::write`.
  unfoldable pub write_reserved : Reservation → RecordHeader → List ℕ → Run Reservation
  write_reserved r header bytes =
      if leb (length bytes) (sub64 r.size RecordHeader.header_size)
      then returns (with_record r header bytes)
      else panic

-- The slot of a reservation put back, in the reservation's buffer.
abbrev pub with_slot : Reservation → Slot → Reservation
with_slot r slot = record r {
  buffer = record r.buffer { slots = set r.buffer.slots r.slot_idx slot };
}

-- The transition that `drop` tries.
unfoldable pub drop_slot : Reservation → Slot → Run Reservation
drop_slot r slot =
    let (undone, slot') = Slot.try_transition slot SlotState.reserved SlotState.empty in
    returns (with_slot r slot')

-- `Drop::drop`.
unfoldable pub drop_reserved : Reservation → Run Reservation
drop_reserved r =
    if r.committed
    then returns r
    else or_panic (get_elem? r.buffer.slots r.slot_idx) >>= drop_slot r

-- The transition that `commit` tries, what follows if it is made, and the drop if it is not.
unfoldable pub commit_slot : Reservation → Bool → Slot → Run (Reservation × Bool)
commit_slot r signal slot =
    let (done, slot') = Slot.try_transition slot SlotState.reserved SlotState.ready in
    if done
    then returns (record (with_slot r (Slot.set_seq slot' r.seq)) { committed = true }, true)
    else (drop_reserved (with_slot r slot') >>= λ r'. returns (r', signal))

-- `commit`, and the drop at its end. The flag is that of `consumer_signal`.
unfoldable pub commit : Reservation → Bool → Run (Reservation × Bool)
commit r signal =
    if r.committed
    then returns (r, signal)
    else or_panic (get_elem? r.buffer.slots r.slot_idx) >>= commit_slot r signal
