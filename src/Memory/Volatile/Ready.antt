-- ===== src/Memory/Volatile/Ready.antt =====
-- `read` over slots that are ready: consecutive sequence numbers, each with a record in its slot.
pub mod Loop
pub mod Commit
use ring_buffer.Prelude.{
  ℕ, zero, suc, ◌+◌, ◌^◌, ◌≤◌, ◌<◌, ◌≡◌, ◌≢◌, refl, ap, ◌∙◌, sym, subst, List, [], ◌∷◌, ◌++◌,
  append-nil, append_assoc, Option, none, some, Bool, true, false, ◌==◌, arith, if◌then◌else◌,
  if-of_true, if-of_false, Bool-cases, inl, inr, length, get_elem?, set, get_elem?-set_self,
  get_elem?-set_ne, get_elem?-lt, ℕ_discrete, ==_iff, lt→ltb,
}
use ring_buffer.Platform.{Platform, add64}
use ring_buffer.Memory.RecordHeader
use ring_buffer.Memory.Record.{Record}
use ring_buffer.Memory.Run.{Run, returns, ◌>>=◌, or_panic}
use ring_buffer.Memory.Index
use ring_buffer.Memory.Slot
use ring_buffer.Memory.Slot.{Slot, SlotState}
use ring_buffer.Memory.Volatile.{VolatileRingBuffer}
use ring_buffer.Memory.Volatile.Read.{
  Reading, read_slot, consume, is_ready, read_loop, drain, finish_read, start_reading, read,
}

-- The slot that the consumer looks at for a sequence number.
abbrev pub slot_of : VolatileRingBuffer → ℕ → Option Slot
slot_of b seq = get_elem? b.slots (Index.physical_index b.cons_seq seq)

abbrev pub with_slots : VolatileRingBuffer → List Slot → VolatileRingBuffer
with_slots b slots = record b { slots = slots }

-- The buffer with that slot empty.
abbrev pub without_slot : VolatileRingBuffer → ℕ → Slot → VolatileRingBuffer
without_slot b seq slot =
    with_slots b
      (set b.slots (Index.physical_index b.cons_seq seq) (record { code = 0; seq = slot.seq }))

-- The slot of a sequence number is free again.
abbrev pub IsEmptied : VolatileRingBuffer → ℕ → Type 0
IsEmptied b seq = (slot : Slot) × (slot_of b seq ≡ some slot) × (Slot.state slot ≡ SlotState.empty)

module _ ⦃p : Platform⦄ where
  -- A record under a sequence number.
  pub record SlotHolds (b : VolatileRingBuffer) (seq : ℕ) (r : Record) : Type 0 where
    pub slot : Slot
    pub slot_eq : slot_of b seq ≡ some slot
    pub is_ready_eq : Slot.state slot ≡ SlotState.ready
    pub seq_eq : slot.seq ≡ seq
    pub record_eq : read_slot b (Index.physical_index b.cons_seq seq) ≡ returns r

  -- The records stand under the sequence numbers from `seq` on, and none behind them.
  abbrev pub ReadyFrom : VolatileRingBuffer → ℕ → List Record → Type 0
  ReadyFrom b seq [] = (slot : Slot) × (slot_of b seq ≡ some slot) × (is_ready slot seq ≡ false)
  ReadyFrom b seq (r ∷ rs) = SlotHolds b seq r × ReadyFrom b (seq + 1) rs

  -- The records whose checksum verifies.
  abbrev pub verified : List Record → List Record
  verified [] = []
  verified (r ∷ rs) =
      let others = verified rs in
      if RecordHeader.verify_crc r.header r.bytes then r ∷ others else others

  pub is_ready-true :
      (slot : Slot) (seq : ℕ)
      → Slot.state slot ≡ SlotState.ready
      → slot.seq ≡ seq
      → is_ready slot seq ≡ true
  unfolding is_ready
  is_ready-true slot seq e e' =
      ap {B = Bool} (λ state. elim state [ SlotState.ready ↦ slot.seq == seq | _ ↦ false ]) e
      ∙ (==_iff slot.seq seq).1 e'

  is_ready-empty : (n seq : ℕ) → is_ready (record { code = 0; seq = n }) seq ≡ false
  unfolding is_ready Slot.state Slot.from_u8
  is_ready-empty n seq = refl

  emptied_state : (n : ℕ) → Slot.state (record { code = 0; seq = n }) ≡ SlotState.empty
  unfolding Slot.state Slot.from_u8
  emptied_state n = refl

  one_slot : {s s' : Slot} → ◌≡◌ {A = Option Slot} (some s) (some s') → s ≡ s'
  one_slot e = cc e

  -- What the emptying of one slot leaves of the others.
  module _ (b : VolatileRingBuffer) (seq : ℕ) (slot : Slot) (e : slot_of b seq ≡ some slot) where
    same_slot :
        (seq' : ℕ)
        → Index.physical_index b.cons_seq seq ≡ Index.physical_index b.cons_seq seq'
        → slot_of (without_slot b seq slot) seq' ≡ some (record { code = 0; seq = slot.seq })
    same_slot seq' same =
        ap (get_elem? (without_slot b seq slot).slots) (sym same)
        ∙ get_elem?-set_self b.slots (Index.physical_index b.cons_seq seq) _
            (get_elem?-lt b.slots (Index.physical_index b.cons_seq seq) e)

    other_slot :
        (seq' : ℕ)
        → Index.physical_index b.cons_seq seq ≢ Index.physical_index b.cons_seq seq'
        → slot_of (without_slot b seq slot) seq' ≡ slot_of b seq'
    other_slot seq' other = get_elem?-set_ne b.slots _ other

    pub without_slot-IsEmptied :
        (seq' : ℕ) → IsEmptied b seq' → IsEmptied (without_slot b seq slot) seq'
    without_slot-IsEmptied seq' (slot', at, state) =
        elim (ℕ_discrete (Index.physical_index b.cons_seq seq)
          (Index.physical_index b.cons_seq seq')) [
            | yes same ↦ (_, same_slot seq' same, emptied_state slot.seq)
            | no other ↦ (slot', other_slot seq' other ∙ at, state)
          ]

    pub without_slot_self : IsEmptied (without_slot b seq slot) seq
    without_slot_self = (_, same_slot seq refl, emptied_state slot.seq)

    without_slot-SlotHolds :
        (seq' : ℕ) (r : Record)
        → slot.seq ≢ seq'
        → SlotHolds b seq' r
        → SlotHolds (without_slot b seq slot) seq' r
    unfolding read_slot
    without_slot-SlotHolds seq' r differ h =
        elim (ℕ_discrete (Index.physical_index b.cons_seq seq)
          (Index.physical_index b.cons_seq seq')) [
            | yes same ↦ absurd (
                differ (
                  ap (λ s. s.seq) (one_slot (sym e ∙ ap (get_elem? b.slots) same ∙ h.slot_eq))
                  ∙ h.seq_eq))
            | no other ↦ record {
              slot = h.slot;
              slot_eq = other_slot seq' other ∙ h.slot_eq;
              is_ready_eq = h.is_ready_eq;
              seq_eq = h.seq_eq;
              record_eq = h.record_eq;
            }
          ]

    pub without_slot-ReadyFrom :
        (rs : List Record) (seq' : ℕ)
        → slot.seq < seq'
        → ReadyFrom b seq' rs
        → ReadyFrom (without_slot b seq slot) seq' rs
    without_slot-ReadyFrom [] seq' below (slot', at, idle) =
        elim (ℕ_discrete (Index.physical_index b.cons_seq seq)
          (Index.physical_index b.cons_seq seq')) [
            | yes same ↦ (_, same_slot seq' same, is_ready-empty slot.seq seq')
            | no other ↦ (slot', other_slot seq' other ∙ at, idle)
          ]
    without_slot-ReadyFrom (r ∷ rs) seq' below (h, rest) = (
      without_slot-SlotHolds seq' r (λ same. omega (arith, same, below)) h,
      without_slot-ReadyFrom rs (seq' + 1) (omega (arith, below)) rest,
    )
