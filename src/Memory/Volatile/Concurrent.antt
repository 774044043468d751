-- ===== src/Memory/Volatile/Concurrent.antt =====
-- Any number of producers in `VolatileRingBuffer::reserve` on one buffer, an atomic access at a
-- time, in any order. The accesses are taken to be sequentially consistent.
pub mod Invariant
pub mod Moves
pub mod Exclusive
pub mod Alone
pub mod Consumer
pub mod Overlap
use ring_buffer.Prelude.{
  ℕ, ◌<◌, ◌≡◌, ◌≢◌, List, [], ◌∷◌, ◌++◌, Option, some, Bool, true, false, get_elem?, set,
  ℕ_discrete,
}
use mathlib.Core.Logic.{ite}
use ring_buffer.Platform.{add64}
use ring_buffer.Memory.Index
use ring_buffer.Memory.Slot
use ring_buffer.Memory.Slot.{Slot, SlotState}
use ring_buffer.Memory.Volatile.{VolatileRingBuffer}

-- The buffer, and the sequence numbers of the reservations made so far, oldest first.
pub record Shared : Type 0 where
  pub buffer : VolatileRingBuffer
  pub handed : List ℕ

-- Where a producer stands, with its `prod_seq` where that is live.
pub data Pc : Type 0 where
  -- before a round of the loop, or outside `reserve`
  idle : Pc
  -- `prod_seq` is loaded
  loaded : ℕ → Pc
  -- the slot has been found empty
  found : ℕ → Pc
  -- the slot is reserved
  taken : ℕ → Pc
  -- `prod_seq` is stored
  stored : ℕ → Pc
  -- the slot has its sequence number, and the reservation is made
  granted : ℕ → Pc

-- The slot of a sequence number.
abbrev pub slot_at : VolatileRingBuffer → ℕ → Option Slot
slot_at b seq = get_elem? b.slots (Index.physical_index b.prod_seq seq)

abbrev pub with_slot : VolatileRingBuffer → ℕ → Slot → VolatileRingBuffer
with_slot b seq slot = record b { slots = set b.slots (Index.physical_index b.prod_seq seq) slot }

-- One step of one producer. From a slot that is not empty it goes to another round or gives up;
-- a reservation that was made ends in the producer's own copy of the buffer.
pub data Move (m : Shared) : Pc → Shared → Pc → Type 0 where
  load_prod : Move m idle m (loaded (Index.load m.buffer.prod_seq))
  find_empty :
      {p : ℕ} {s : Slot}
      → slot_at m.buffer p ≡ some s
      → Slot.state s ≡ SlotState.empty
      → Move m (loaded p) m (found p)
  find_busy :
      {p : ℕ} {s : Slot}
      → slot_at m.buffer p ≡ some s
      → Slot.state s ≢ SlotState.empty
      → Move m (loaded p) m idle
  win :
      {p : ℕ} {s s' : Slot}
      → slot_at m.buffer p ≡ some s
      → Slot.try_transition s SlotState.empty SlotState.reserved ≡ (true, s')
      → Move m
          (found p)
          (record { buffer = with_slot m.buffer p s'; handed = m.handed ++ (p ∷ []) })
          (taken p)
  lose :
      {p : ℕ} {s s' : Slot}
      → slot_at m.buffer p ≡ some s
      → Slot.try_transition s SlotState.empty SlotState.reserved ≡ (false, s')
      → Move m (found p) m idle
  store_prod :
      {p : ℕ}
      → Move m
          (taken p)
          (record m {
            buffer = record m.buffer { prod_seq = Index.store m.buffer.prod_seq (add64 p 1) };
          })
          (stored p)
  set_seq :
      {p : ℕ} {s : Slot}
      → slot_at m.buffer p ≡ some s
      → Move m
          (stored p)
          (record m { buffer = with_slot m.buffer p (Slot.set_seq s p) })
          (granted p)
  finish : {p : ℕ} → Move m (granted p) m idle

pub record Producers : Type 0 where
  pub shared : Shared
  pub pc : ℕ → Pc

abbrev pub moved_to : (ℕ → Pc) → ℕ → Pc → ℕ → Pc
moved_to pc i p j = ite (ℕ_discrete i j) p (pc j)

-- The scheduler picks a producer.
pub data Step (s : Producers) : Producers → Type 0 where
  pick :
      (i : ℕ) {m : Shared} {p : Pc}
      → Move s.shared (s.pc i) m p
      → Step s (record { shared = m; pc = moved_to s.pc i p })

abbrev pub start : VolatileRingBuffer → Producers
start b = record { shared = record { buffer = b; handed = [] }; pc = λ _. idle }

pub data Reach (b : VolatileRingBuffer) : Producers → Type 0 where
  here : Reach b (start b)
  later : {s t : Producers} → Reach b s → Step s t → Reach b t
