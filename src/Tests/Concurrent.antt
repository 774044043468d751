-- ===== src/Tests/Concurrent.antt =====
-- Producers of a volatile buffer of two slots.
use ring_buffer.Prelude.{
  false, ℕ, ℕ_discrete, ◌^◌, ◌≤◌, ◌≡◌, refl, List, [], ◌∷◌, some, arith, length,
}
use ring_buffer.Memory.Run.{returns}
use ring_buffer.Memory.Index
use ring_buffer.Memory.Slot
use ring_buffer.Memory.Volatile.Concurrent.{
  Shared, loaded, found, taken, Pc, Move, load_prod, find_empty, win, Producers, pick, Reach, here,
  later,
}
use ring_buffer.Memory.Volatile.Concurrent.Invariant.{range_from, holds}
use ring_buffer.Memory.Volatile.Concurrent.Exclusive.{reserve_exclusive, reserve-can_step}
use ring_buffer.Memory.Volatile.Concurrent.Overlap.{
  ReadPc, ReadMove, load_cons, System, Runs, begins, produces, consumes, IsIdle, read-overlaps,
}
use ring_buffer.Memory.Volatile.Read.{read}
use ring_buffer.Tests.Toy.{toy}
use ring_buffer.Tests.Memory.{two_slots, two_slots-Filled}

-- The first slot of an empty buffer can be found empty, and taken.
found_first :
    (handed : List ℕ)
    → Move
        (record { buffer = two_slots 0; handed = handed })
        (loaded 0)
        (record { buffer = two_slots 0; handed = handed })
        (found 0)
unfolding Slot.new Slot.as_u8 Slot.state Slot.from_u8 Index.physical_index
found_first handed = find_empty refl refl

abbrev one_taken : Shared
one_taken = record {
  buffer = record (two_slots 0) { slots = record { code = 1; seq = 0 } ∷ (Slot.new ∷ []) };
  handed = 0 ∷ [];
}

takes_first : Move (record { buffer = two_slots 0; handed = [] }) (found 0) one_taken (taken 0)
unfolding Slot.new Slot.as_u8 Slot.state Slot.from_u8 Slot.try_transition Index.physical_index
takes_first = win refl refl

-- Two producers load the same number and find its slot empty; the first of them takes it.
racing : (s : Producers) × Reach (two_slots 0) s
unfolding ℕ_discrete
racing = (
  _,
  later
      (later
        (later (later (later here (pick 0 load_prod)) (pick 1 load_prod)) (pick 0 (found_first [])))
        (pick 1 (found_first [])))
      (pick 0 takes_first),
)

reserve_exclusive_example :
    (racing.0.shared.handed ≡ range_from 0 (length racing.0.shared.handed))
    × (length racing.0.shared.handed ≤ 2 ^ 1)
    × ((i j p : ℕ) → holds (racing.0.pc i) ≡ some p → holds (racing.0.pc j) ≡ some p → i ≡ j)
reserve_exclusive_example =
    reserve_exclusive 1 (two_slots 0) racing.0 (two_slots-Filled 0 (omega arith)) racing.1

reserve-can_step_example : (m : Shared) × (p : Pc) × Move racing.0.shared (racing.0.pc 1) m p
reserve-can_step_example =
    reserve-can_step 1 (two_slots 0) racing.0 1 (two_slots-Filled 0 (omega arith)) racing.1

-- A `read` has loaded its sequence, and then a producer loads its own.
overlapping : (s : System) × Runs (two_slots 0) s
overlapping = (_, produces (consumes begins load_cons) (pick 0 load_prod))

read-overlaps_example :
    let m = overlapping.0.producers.shared in
    IsIdle overlapping.0.consumer
    × (c : ReadPc) × ReadMove m overlapping.0.consumer c
    × (read m.buffer false ≡ returns ([], m.buffer, false))
read-overlaps_example =
    read-overlaps 1 (two_slots 0) overlapping.0 false (two_slots-Filled 0 (omega arith))
      overlapping.1
