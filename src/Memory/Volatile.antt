-- ===== src/Memory/Volatile.antt =====
-- `VolatileRingBuffer` and `Reservation` of src/memory/volatile.rs. The field `data` is `memory`
-- here. The flag behind `consumer_signal` is shared by a buffer and all its clones, so it is no
-- field: the calls that set or clear it take it and return it. `consumer_lock` holds no data, and
-- the pauses between two spins change nothing.
pub mod Reserved
pub mod Write
pub mod Read
pub mod Filled
pub mod Reserve
pub mod Outcomes
pub mod History
pub mod Concurrent
pub mod Ready
use ring_buffer.Prelude.{
  ℕ, zero, suc, ◌+◌, ◌-◌, ◌*◌, List, [], ◌∷◌, ◌++◌, Option, none, some, Bool, true, false, not,
  ◌&&◌, ltb, leb, ◌==◌, if◌then◌else◌, length, get_elem?, set, replicate,
}
use ring_buffer.Bytes.{range_of, overwrite}
use ring_buffer.Platform.{Platform, add64, sub64, mul64, size_of, fits_vec}
use ring_buffer.Memory.RecordHeader
use ring_buffer.Memory.RecordHeader.{RecordHeader}
use ring_buffer.Memory.Record.{Record}
use ring_buffer.Memory.Run.{Run, returns, panic, undefined, unfinished, ◌>>=◌, or_panic}
use ring_buffer.Memory.Index
use ring_buffer.Memory.Index.{AtomicIndex}
use ring_buffer.Memory.Slot
use ring_buffer.Memory.Slot.{Slot, SlotState}

pub record VolatileRingBuffer : Type 0 where
  pub slots : List Slot
  pub memory : List ℕ
  pub prod_seq : AtomicIndex
  pub cons_seq : AtomicIndex
  pub capacity : ℕ
  pub slot_size : ℕ
  pub overflow_queue : List Record
  pub max_overflow : ℕ
  pub max_spins : ℕ

pub record Reservation : Type 0 where
  pub slot_idx : ℕ
  pub seq : ℕ
  pub size : ℕ
  pub buffer : VolatileRingBuffer
  pub committed : Bool

-- `Vec::with_capacity` of the slots, whose fields are a `u8` and a `u64`, and the zeroed data section.
unfoldable pub allocated : ℕ → ℕ → Run (List ℕ)
allocated num_slots slot_size =
    let total_data_size = mul64 num_slots slot_size in
    if fits_vec num_slots (size_of (1 ∷ 8 ∷ [])) && fits_vec total_data_size 1
    then returns (replicate total_data_size 0)
    else panic

unfoldable pub new : ℕ → Run VolatileRingBuffer
new capacity = do
  let num_slots = Index.next_power_of_two capacity
  memory ← allocated num_slots 256
  prod_seq ← Index.new num_slots
  cons_seq ← Index.new num_slots
  returns (record {
    slots = replicate num_slots Slot.new;
    memory = memory;
    prod_seq = prod_seq;
    cons_seq = cons_seq;
    capacity = num_slots;
    slot_size = 256;
    overflow_queue = [];
    max_overflow = 1000;
    max_spins = 100;
  })

-- `Clone::clone`: an empty buffer of the same dimensions.
unfoldable pub clone : VolatileRingBuffer → Run VolatileRingBuffer
clone b = do
  memory ← allocated b.capacity b.slot_size
  prod_seq ← Index.new b.capacity
  cons_seq ← Index.new b.capacity
  returns (record {
    slots = replicate b.capacity Slot.new;
    memory = memory;
    prod_seq = prod_seq;
    cons_seq = cons_seq;
    capacity = b.capacity;
    slot_size = b.slot_size;
    overflow_queue = [];
    max_overflow = b.max_overflow;
    max_spins = b.max_spins;
  })

-- The slot at the production sequence has been taken: the sequence goes on, and the reservation
-- gets a clone of the buffer.
unfoldable pub take_slot :
    VolatileRingBuffer → ℕ → ℕ → ℕ → Slot → Run (Option Reservation × VolatileRingBuffer)
take_slot b prod_seq slot_idx total_size slot = do
  let b' = record b {
    slots = set b.slots slot_idx (Slot.set_seq slot prod_seq);
    prod_seq = Index.store b.prod_seq (add64 prod_seq 1);
  }
  copy ← clone b'
  returns (
    some (record {
      slot_idx = slot_idx;
      seq = prod_seq;
      size = total_size;
      buffer = copy;
      committed = false;
    }),
    b',
  )

-- The match on the state of the slot, and the transition to `Reserved`.
unfoldable pub attempt_slot :
    VolatileRingBuffer → ℕ → ℕ → ℕ → Slot → Run (Option Reservation × VolatileRingBuffer)
attempt_slot b prod_seq slot_idx total_size slot =
    let (taken, slot') = Slot.try_transition slot SlotState.empty SlotState.reserved in
    elim (Slot.state slot) [
      | SlotState.empty ↦
          (if taken then take_slot b prod_seq slot_idx total_size slot' else returns (none, b))
      | _ ↦ returns (none, b)
    ]

-- One round of the spin loop: the reservation, or `none` for a slot that is not free.
unfoldable pub attempt : VolatileRingBuffer → ℕ → Run (Option Reservation × VolatileRingBuffer)
attempt b total_size =
    let prod_seq = Index.load b.prod_seq in
    let slot_idx = Index.physical_index b.prod_seq prod_seq in
    or_panic (get_elem? b.slots slot_idx) >>= attempt_slot b prod_seq slot_idx total_size

-- What follows a round: the result, the next round, or the end of the spins.
unfoldable pub after_attempt :
    (VolatileRingBuffer → Run (Option Reservation × VolatileRingBuffer))
    → Run (Option Reservation × VolatileRingBuffer)
    → Run (Option Reservation × VolatileRingBuffer)
after_attempt again (returns (some r, b)) = returns (some r, b)
after_attempt again (returns (none, b)) = again b
after_attempt again panic = panic
after_attempt again undefined = undefined
after_attempt again unfinished = unfinished

-- The spin loop, with `left` rounds up to `max_spins`. A call that does not block gives up behind
-- its eleventh round.
unfoldable pub spin :
    ℕ → ℕ → VolatileRingBuffer → ℕ → Bool → Run (Option Reservation × VolatileRingBuffer)
spin zero spins b total_size block = returns (none, b)
spin (suc left) spins b total_size block =
    after_attempt
      (λ b'.
        let rest = spin left (spins + 1) b' total_size block in
        if not block && ltb 10 (spins + 1) then returns (none, b') else rest)
      (attempt b total_size)

-- `reserve` calls itself when it blocks; the fuel counts the calls.
unfoldable pub reserve :
    ℕ → VolatileRingBuffer → ℕ → Bool → Run (Option Reservation × VolatileRingBuffer)
reserve zero b size block = unfinished
reserve (suc fuel) b size block =
    let total_size = add64 size RecordHeader.header_size in
    let again = λ (b' : VolatileRingBuffer). reserve fuel b' size block in
    if leb total_size b.slot_size
    then after_attempt (λ b'. if block then again b' else returns (none, b'))
        (spin b.max_spins 0 b total_size block)
    else panic
