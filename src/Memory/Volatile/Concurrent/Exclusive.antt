-- ===== src/Memory/Volatile/Concurrent/Exclusive.antt =====
-- What holds in every state that the producers reach from a new buffer.
use native.Mathlib.Nat.{mod-lt, one-le-pow}
use ring_buffer.Prelude.{
  ℕ, ◌+◌, ◌%◌, ◌^◌, ◌≤◌, ◌<◌, ◌≡◌, refl, ap, ◌∙◌, some, false, arith, length, get_elem?,
  length-replicate, get_elem?-replicate, inl, inr, Bool-cases, ℕ_discrete,
}
use ring_buffer.Memory.Slot
use ring_buffer.Memory.Slot.{Slot, SlotState, SlotState-discrete}
use ring_buffer.Memory.Volatile.{VolatileRingBuffer}
use ring_buffer.Memory.Volatile.Filled.{Filled}
use ring_buffer.Memory.Volatile.Concurrent.{
  Shared, Pc, idle, loaded, found, taken, stored, granted, slot_at, Move, load_prod, find_empty,
  find_busy, win, lose, store_prod, set_seq, finish, Producers, Step, pick, start, Reach, here,
  later,
}
use ring_buffer.Memory.Volatile.Concurrent.Invariant.{range_from, is_storing, holds, SlotIs, Inv}
use ring_buffer.Memory.Volatile.Concurrent.Moves.{Move-Inv, index}

SlotIs-Filled :
    {k : ℕ} {b : VolatileRingBuffer} → Filled k 0 b → (i : ℕ) → i < 2 ^ k → SlotIs 0 i b.slots
unfolding Slot.new Slot.as_u8
SlotIs-Filled f i lt = (
  Slot.new,
  ap (λ l. get_elem? l i) f.slots_eq ∙ get_elem?-replicate _ i Slot.new (omega arith),
  ground arith,
)

Inv-start : {k : ℕ} {b : VolatileRingBuffer} → Filled k 0 b → Inv k (start b).shared (start b).pc
Inv-start {k} f = record {
  small = f.small;
  mask = ap (λ i. i.mask) f.prod_eq;
  slots_length = ap length f.slots_eq ∙ length-replicate _ Slot.new ∙ omega arith;
  in_order = refl;
  room = omega arith;
  prod_le = omega (arith, ap (λ i. i.value) f.prod_eq);
  le_prod = omega arith;
  slots_are = SlotIs-Filled f;
  known = λ i. tt;
  storing = λ e. absurd (omega (arith, ap (λ i. i.value) f.prod_eq));
  unique = λ i j p q r. cc;
}

pub Step-Inv : {k : ℕ} {s t : Producers} → Step s t → Inv k s.shared s.pc → Inv k t.shared t.pc
Step-Inv (pick i mv) inv = Move-Inv i inv refl mv

pub Reach-Inv :
    {k : ℕ} {b : VolatileRingBuffer} {s : Producers}
    → Filled k 0 b
    → Reach b s
    → Inv k s.shared s.pc
Reach-Inv f here = Inv-start f
Reach-Inv f (later r st) = Step-Inv st (Reach-Inv f r)

-- Any number of producers are in `reserve` on one buffer, which starts as `new` makes it, with 2^k
-- slots, all of them empty, and their atomic accesses interleave in any order. In every state that
-- they reach, the reservations made so far have the sequence numbers from 0 on, in this order and
-- at most 2^k of them, and no two producers hold a reservation of the same number.
pub reserve_exclusive :
    (k : ℕ) (b : VolatileRingBuffer) (s : Producers)
    → Filled k 0 b
    → Reach b s
    → (s.shared.handed ≡ range_from 0 (length s.shared.handed))
      × (length s.shared.handed ≤ 2 ^ k)
      × ((i j p : ℕ) → holds (s.pc i) ≡ some p → holds (s.pc j) ≡ some p → i ≡ j)
reserve_exclusive k b s f r = let inv = Reach-Inv f r in (inv.in_order, inv.room, inv.unique)

-- The next sequence number counts the reservations, while no producer is about to store it.
pub prod_seq-quiet :
    (k : ℕ) (b : VolatileRingBuffer) (s : Producers)
    → Filled k 0 b
    → Reach b s
    → ((i : ℕ) → is_storing (s.pc i) ≡ false)
    → s.shared.buffer.prod_seq.value ≡ length s.shared.handed
prod_seq-quiet k b s f r quiet =
    let inv = Reach-Inv f r in
    elim (ℕ_discrete (length s.shared.handed) (s.shared.buffer.prod_seq.value + 1)) [
      | yes e ↦ let (i, at) = inv.storing e in absurd (ground (arith, quiet i))
      | no ne ↦ omega (arith, inv.prod_le, inv.le_prod)
    ]

-- The slot of any number that a producer may hold is in bounds.
in_bounds :
    {k : ℕ} {m : Shared} {pc : ℕ → Pc} (inv : Inv k m pc) (p : ℕ)
    → (s : Slot) × (slot_at m.buffer p ≡ some s)
in_bounds {k} {m} inv p =
    let (s, at, _) = inv.slots_are (p % 2 ^ k) (mod-lt p (one-le-pow k 2 (omega arith))) in
    (s, ap (get_elem? m.buffer.slots) (index inv 0 p) ∙ at)

-- The next move of a producer, wherever it stands.
next_move :
    {k : ℕ} {m : Shared} {pc : ℕ → Pc} (inv : Inv k m pc) (p : Pc)
    → (m' : Shared) × (p' : Pc) × Move m p m' p'
next_move inv idle = (_, _, load_prod)
next_move inv (loaded p) =
    let (s, at) = in_bounds inv p in
    elim (SlotState-discrete (Slot.state s) SlotState.empty) [
      | yes e ↦ (_, _, find_empty at e)
      | no ne ↦ (_, _, find_busy at ne)
    ]
next_move inv (found p) = let (s, at) = in_bounds inv p in transition at
  where
    transition :
        {m : Shared} {p : ℕ} {s : Slot}
        → slot_at m.buffer p ≡ some s
        → (m' : Shared) × (p' : Pc) × Move m (found p) m' p'
    transition {s = s} at =
        elim (Bool-cases (Slot.try_transition s SlotState.empty SlotState.reserved).0) [
          | inl won ↦ (
            _,
            _,
            win at
                (ap (λ b. (b, (Slot.try_transition s SlotState.empty SlotState.reserved).1)) won),
          )
          | inr lost ↦ (
            _,
            _,
            lose at
                (ap (λ b. (b, (Slot.try_transition s SlotState.empty SlotState.reserved).1)) lost),
          )
        ]
next_move inv (taken p) = (_, _, store_prod)
next_move inv (stored p) = let (s, at) = in_bounds inv p in (_, _, set_seq at)
next_move inv (granted p) = (_, _, finish)

-- Any number of producers are in `reserve` on one buffer, which starts as `new` makes it, with 2^k
-- slots, all of them empty, and their atomic accesses interleave in any order. In every state that
-- they reach, each producer has a next move: the slot that it looks at is in bounds, and it waits
-- for no other producer.
pub reserve-can_step :
    (k : ℕ) (b : VolatileRingBuffer) (s : Producers) (i : ℕ)
    → Filled k 0 b
    → Reach b s
    → (m : Shared) × (p : Pc) × Move s.shared (s.pc i) m p
reserve-can_step k b s i f r = next_move (Reach-Inv f r) (s.pc i)
