-- ===== src/Memory/Volatile/Ready/Commit.antt =====
-- A reservation whose slot is reserved in the buffer that it has: what `write` and `commit` of it
-- leave for `read`.
use ring_buffer.Prelude.{
  ℕ, ◌+◌, ◌*◌, ◌≤◌, ◌<◌, ◌≡◌, refl, ap, ◌∙◌, sym, subst, List, [], some, true, false, arith, length,
  get_elem?, set, get_elem?-set_self, get_elem?-set_ne, get_elem?-lt, ℕ_discrete,
}
use ring_buffer.Bytes.{slice, overwrite, to_le_bytes}
use ring_buffer.Bytes.Laws.{
  from_le_bytes-to_le_bytes, length-overwrite, range_of-overwrite, range_of-overwrite_below,
  slice-in_bounds,
}
use ring_buffer.Platform.{Platform, u32_mod, u64_mod}
use ring_buffer.Memory.RecordHeader
use ring_buffer.Memory.RecordHeader.{RecordHeader}
use ring_buffer.Memory.Record.{Record}
use ring_buffer.Memory.Run.{returns}
use ring_buffer.Memory.Index
use ring_buffer.Memory.Slot
use ring_buffer.Memory.Slot.{Slot, SlotState}
use ring_buffer.Memory.Volatile.{Reservation}
use ring_buffer.Memory.Volatile.Reserved.{with_record, with_slot}
use ring_buffer.Memory.Volatile.Read.{read_slot, is_ready}
use ring_buffer.Memory.Volatile.Ready.{SlotHolds, ReadyFrom}

-- The fields fit their Rust types, and the size is that of the data.
pub record IsFor (h : RecordHeader) (bytes : List ℕ) : Type 0 where
  pub size_eq : h.size ≡ length bytes
  pub size_lt : h.size < u32_mod
  pub crc32_lt : h.crc32 < u32_mod
  pub timestamp_us_lt : h.timestamp_us < u64_mod
  pub tag_lt : h.tag < u32_mod

module _ ⦃p : Platform⦄ where
  -- The slot of the reservation is reserved in its buffer and is the next one to be read, and its
  -- data section has room for `n` bytes of data in it.
  pub record IsNextSlot (r : Reservation) (n : ℕ) : Type 0 where
    pub is_open : r.committed ≡ false
    pub slot : Slot
    pub slot_eq : get_elem? r.buffer.slots r.slot_idx ≡ some slot
    pub reserved_eq : slot.code ≡ 1
    pub index_eq : r.slot_idx ≡ Index.physical_index r.buffer.cons_seq r.buffer.cons_seq.value
    pub seq_eq : r.seq ≡ r.buffer.cons_seq.value
    pub seq_lt : r.seq + 1 < u64_mod
    pub size_le : 24 + n ≤ r.size
    pub size_lt : r.size < u64_mod
    pub room : r.slot_idx * r.buffer.slot_size + 24 + n ≤ length r.buffer.memory
    pub some_slots : 0 < r.buffer.capacity
    pub queue_eq : r.buffer.overflow_queue ≡ []
    pub behind : ReadyFrom r.buffer (r.seq + 1) []

  length-header : (h : RecordHeader) → length (RecordHeader.as_bytes h) ≡ 24
  unfolding RecordHeader.as_bytes to_le_bytes
  length-header h = omega (arith, p.length_padding)

  header_back :
      (h : RecordHeader) (bytes : List ℕ)
      → IsFor h bytes
      → RecordHeader.from_bytes (RecordHeader.as_bytes h) ≡ h
  unfolding RecordHeader.as_bytes RecordHeader.from_bytes to_le_bytes
  header_back h bytes ok = λ i. record {
    size = from_le_bytes-to_le_bytes 4 h.size ok.size_lt i;
    crc32 = from_le_bytes-to_le_bytes 4 h.crc32 ok.crc32_lt i;
    timestamp_us = from_le_bytes-to_le_bytes 8 h.timestamp_us ok.timestamp_us_lt i;
    tag = from_le_bytes-to_le_bytes 4 h.tag ok.tag_lt i;
  }

  -- What is written into a slot is read from it.
  read_slot-with_record :
      (res : Reservation) (r : Record)
      → IsFor r.header r.bytes
      → res.slot_idx * res.buffer.slot_size + 24 + length r.bytes ≤ length res.buffer.memory
      → read_slot (with_record res r.header r.bytes).buffer res.slot_idx ≡ returns r
  unfolding read_slot with_record
  read_slot-with_record res r ok room =
      let pos = res.slot_idx * res.buffer.slot_size in
      let memory = res.buffer.memory in
      let with_header = overwrite memory pos (RecordHeader.as_bytes r.header) in
      let written = overwrite with_header (pos + 24) r.bytes in
      let len = length-overwrite memory pos (RecordHeader.as_bytes r.header) in
      let len' = length-overwrite with_header (pos + 24) r.bytes in
      let header : slice written pos 24 ≡ some (RecordHeader.as_bytes r.header) =
        slice-in_bounds written pos 24 (omega (arith, room, len, len'))
        ∙ ap some (
            range_of-overwrite_below with_header (pos + 24) r.bytes pos 24 (omega arith)
            ∙ range_of-overwrite memory pos (RecordHeader.as_bytes r.header) 24
                (length-header r.header) (omega (arith, room))) in
      let bytes : slice written (pos + 24) r.header.size ≡ some r.bytes =
        slice-in_bounds written (pos + 24) r.header.size
          (omega (arith, room, len, len', ok.size_eq))
        ∙ ap some (
            range_of-overwrite with_header (pos + 24) r.bytes r.header.size (sym ok.size_eq)
              (omega (arith, room, ok.size_eq, len))) in
      rw (header, header_back r.header r.bytes ok, bytes) refl

  -- The reservation behind `write` and `commit`.
  abbrev pub filled : Reservation → Record → Reservation
  filled res r =
      record (with_slot (with_record res r.header r.bytes) (record { code = 2; seq = res.seq })) {
        committed = true;
      }

  pub filled-SlotHolds :
      (res : Reservation) (r : Record)
      → IsFor r.header r.bytes
      → IsNextSlot res (length r.bytes)
      → SlotHolds (filled res r).buffer res.buffer.cons_seq.value r
  unfolding Slot.state Slot.from_u8 read_slot with_record
  filled-SlotHolds res r ok h =
      let slot : Slot = record { code = 2; seq = res.seq } in
      record {
        slot = slot;
        slot_eq =
            ap (get_elem? (set res.buffer.slots res.slot_idx slot)) (sym h.index_eq)
            ∙ get_elem?-set_self res.buffer.slots res.slot_idx slot
                (get_elem?-lt res.buffer.slots res.slot_idx h.slot_eq);
        is_ready_eq = refl;
        seq_eq = h.seq_eq;
        record_eq =
            ap (read_slot (filled res r).buffer) (sym h.index_eq)
            ∙ read_slot-with_record res r ok h.room;
      }

  -- The slot behind is not ready, even if it is the same one.
  pub filled-behind :
      (res : Reservation) (r : Record)
      → IsNextSlot res (length r.bytes)
      → ReadyFrom (filled res r).buffer (res.buffer.cons_seq.value + 1) []
  unfolding is_ready Slot.state Slot.from_u8 with_record
  filled-behind res r h =
      subst (λ seq. ReadyFrom (filled res r).buffer (seq + 1) []) h.seq_eq
        (elim (ℕ_discrete res.slot_idx (Index.physical_index res.buffer.cons_seq (res.seq + 1))) [
          | yes same ↦ (
            record { code = 2; seq = res.seq },
            ap (get_elem? (set res.buffer.slots res.slot_idx (record { code = 2; seq = res.seq })))
                  (sym same)
                ∙ get_elem?-set_self res.buffer.slots res.slot_idx _
                    (get_elem?-lt res.buffer.slots res.slot_idx h.slot_eq),
            ground arith,
          )
          | no other ↦
              (h.behind.0, get_elem?-set_ne res.buffer.slots _ other ∙ h.behind.1, h.behind.2)
        ])
