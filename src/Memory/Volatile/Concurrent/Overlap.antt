-- ===== src/Memory/Volatile/Concurrent/Overlap.antt =====
-- A consumer whose `read` overlaps with the moves of the producers, an atomic access at a time.
use native.Mathlib.Nat.{mod-lt, one-le-pow}
use ring_buffer.Prelude.{
  ℕ, ◌%◌, ◌^◌, ◌≤◌, ◌≡◌, ◌≢◌, ap, ◌∙◌, sym, [], Option, some, Bool, true, false, arith, get_elem?,
}
use ring_buffer.Platform.{Platform}
use ring_buffer.Memory.Run.{returns}
use ring_buffer.Memory.Volatile.Read.{read}
use ring_buffer.Memory.Index
use ring_buffer.Memory.Index.Powers.{physical_index_lem}
use ring_buffer.Memory.Slot
use ring_buffer.Memory.Slot.{Slot, SlotState}
use ring_buffer.Memory.Volatile.{VolatileRingBuffer}
use ring_buffer.Memory.Volatile.Filled.{Filled}
use ring_buffer.Memory.Volatile.Concurrent.{Shared, Producers, Step, start, Reach, here, later}
use ring_buffer.Memory.Volatile.Concurrent.Exclusive.{Reach-Inv}
use ring_buffer.Memory.Volatile.Concurrent.Consumer.{cons_seq-Reach, read-Reach}

-- Where the consumer stands in its loop, with its `cons_seq`.
pub data ReadPc : Type 0 where
  -- outside `read`: before it, or behind one that has processed no slot
  outside : ReadPc
  -- before it looks at the state of a slot
  looking : ℕ → ReadPc
  -- the slot was ready: its sequence number is compared next, and then its record is taken
  reading : ℕ → ReadPc

-- One access of the consumer. Behind a slot that is not ready, the first of a `read`, the loop ends,
-- with no slot processed: neither the sequence nor the overflow queue is touched.
pub data ReadMove (m : Shared) : ReadPc → ReadPc → Type 0 where
  load_cons : ReadMove m outside (looking (Index.load m.buffer.cons_seq))
  find_ready :
      {c : ℕ} {s : Slot}
      → get_elem? m.buffer.slots (Index.physical_index m.buffer.cons_seq c) ≡ some s
      → Slot.state s ≡ SlotState.ready
      → ReadMove m (looking c) (reading c)
  find_other :
      {c : ℕ} {s : Slot}
      → get_elem? m.buffer.slots (Index.physical_index m.buffer.cons_seq c) ≡ some s
      → Slot.state s ≢ SlotState.ready
      → ReadMove m (looking c) outside

pub record System : Type 0 where
  pub producers : Producers
  pub consumer : ReadPc

-- Producers and consumer, in any order.
pub data Runs (b : VolatileRingBuffer) : System → Type 0 where
  begins : Runs b (record { producers = start b; consumer = outside })
  produces :
      {s : Producers} {c : ReadPc} {t : Producers}
      → Runs b (record { producers = s; consumer = c })
      → Step s t
      → Runs b (record { producers = t; consumer = c })
  consumes :
      {s : Producers} {c c' : ReadPc}
      → Runs b (record { producers = s; consumer = c })
      → ReadMove s.shared c c'
      → Runs b (record { producers = s; consumer = c' })

-- The producers do not see the consumer.
Runs-Reach : {b : VolatileRingBuffer} {s : System} → Runs b s → Reach b s.producers
Runs-Reach begins = here
Runs-Reach (produces r step) = later (Runs-Reach r) step
Runs-Reach (consumes r move) = Runs-Reach r

abbrev pub IsIdle : ReadPc → Type 0
IsIdle outside = Unit {0}
IsIdle (looking c) = Unit {0}
IsIdle (reading c) = ⊥

abbrev is_ready_state : SlotState → Bool
is_ready_state SlotState.ready = true
is_ready_state SlotState.empty = false
is_ready_state SlotState.reserved = false
is_ready_state SlotState.consumed = false

-- A slot that is empty or reserved is not ready.
low-state : (slot : Slot) → slot.code ≤ 1 → is_ready_state (Slot.state slot) ≡ false
unfolding Slot.state Slot.from_u8
low-state slot h = ground (arith, h)

not_ready : (state : SlotState) → is_ready_state state ≡ false → state ≢ SlotState.ready
not_ready state h e = absurd (ground (arith, h, ap is_ready_state e))

one_slot : {s s' : Slot} → ◌≡◌ {A = Option Slot} (some s) (some s') → s ≡ s'
one_slot e = cc e

-- Whatever sequence number the consumer has, its slot is empty or reserved.
slot-Reach :
    (k c : ℕ) {b : VolatileRingBuffer} {s : Producers}
    → Filled k 0 b
    → Reach b s
    → let m = s.shared.buffer in
      (slot : Slot) × (get_elem? m.slots (Index.physical_index m.cons_seq c) ≡ some slot)
      × (Slot.state slot ≢ SlotState.ready)
slot-Reach k c {s = s} f r =
    let inv = Reach-Inv f r in
    let cons = cons_seq-Reach r ∙ f.cons_eq in
    let (slot, at, code) = inv.slots_are (c % 2 ^ k) (mod-lt c (one-le-pow k 2 (omega arith))) in
    let index = physical_index_lem s.shared.buffer.cons_seq k c (ap (λ i. i.mask) cons) in
    (
      slot,
      ap (get_elem? s.shared.buffer.slots) index ∙ at,
      not_ready _ (low-state slot (ground (arith, code))),
    )

IsIdle-Runs :
    (k : ℕ) {b : VolatileRingBuffer} {s : System} → Filled k 0 b → Runs b s → IsIdle s.consumer
IsIdle-Runs k f begins = tt
IsIdle-Runs k f (produces r step) = IsIdle-Runs k f r
IsIdle-Runs k f (consumes r load_cons) = tt
IsIdle-Runs k f (consumes r (find_other at e)) = tt
IsIdle-Runs k f (consumes r (find_ready {c = c} at e)) =
    let (slot, at', other) = slot-Reach k c f (Runs-Reach r) in
    other (ap Slot.state (one_slot (sym at' ∙ at)) ∙ e)

moves :
    (k : ℕ) {b : VolatileRingBuffer} {s : Producers} (c : ReadPc)
    → Filled k 0 b
    → Reach b s
    → IsIdle c
    → (c' : ReadPc) × ReadMove s.shared c c'
moves k outside f r idle = (_, load_cons)
moves k (looking c) f r idle =
    let (slot, at, other) = slot-Reach k c f r in (outside, find_other at other)
moves k (reading c) f r idle = absurd idle

module _ ⦃p : Platform⦄ where
  -- Any number of producers are in `reserve` on one buffer, which starts as `new` makes it, with
  -- 2^k slots, all of them empty, and a consumer is in `read`; their atomic accesses interleave in
  -- any order. In every state that they reach, the consumer has found no slot ready, has a next
  -- access, and waits for no producer; and a `read` that runs there without interruption returns
  -- no record and changes nothing.
  pub read-overlaps :
      (k : ℕ) (b : VolatileRingBuffer) (s : System) (signal : Bool)
      → Filled k 0 b
      → Runs b s
      → let m = s.producers.shared in
        IsIdle s.consumer
        × (c : ReadPc) × ReadMove m s.consumer c
        × (read m.buffer signal ≡ returns ([], m.buffer, signal))
  read-overlaps k b s signal f r =
      let idle = IsIdle-Runs k f r in
      let next = moves k s.consumer f (Runs-Reach r) idle in
      (idle, next.0, next.1, read-Reach k b s.producers signal f (Runs-Reach r))
