-- ===== src/Tests/Memory.antt =====
-- The volatile buffer at concrete inputs.
use ring_buffer.Prelude.{
  ℕ, ◌-◌, ◌^◌, ◌≤◌, ◌≡◌, refl, List, [], ◌∷◌, ◌++◌, true, false, arith, replicate,
}
use ring_buffer.Memory.Run.{returns, unfinished}
use ring_buffer.Memory.Index
use ring_buffer.Memory.Index.{AtomicIndex}
use ring_buffer.Memory.Index.Powers.{IsNext, next_power_of_two_lem}
use ring_buffer.Memory.Slot
use ring_buffer.Memory.Volatile.{VolatileRingBuffer, new, reserve}
use ring_buffer.Memory.Volatile.Filled.{Filled, taken}
use ring_buffer.Memory.Volatile.Reserve.{reserve-blocked}
use ring_buffer.Memory.Volatile.History.{Call, writes, fills, reads, use_run, run}
use ring_buffer.Memory.Volatile.History.Life.{unused, new-history}
use ring_buffer.Tests.Toy.{toy, three_bytes, one_byte}

abbrev calls : List Call
calls =
    writes three_bytes
    ∷ (fills 40 one_byte ∷ (reads ∷ (writes one_byte ∷ (writes three_bytes ∷ (reads ∷ [])))))

new-history_example :
    (k : ℕ) × IsNext 2 0 k
    × (b : VolatileRingBuffer) × (new 2 ≡ returns b)
    × (b' : VolatileRingBuffer) × (run b false calls
        ≡ returns ((use_run (2 ^ k) unused calls).0, b', false))
    × (b'.overflow_queue ≡ (use_run (2 ^ k) unused calls).1.queue)
new-history_example =
    new-history 2 calls false (omega arith)
      (omega arith, ((omega arith, omega arith), (tt, (omega arith, (omega arith, (tt, tt))))))

next_power_of_two_lem_example :
    (k : ℕ) × (Index.next_power_of_two 1000 ≡ 2 ^ k) × (k ≤ 63) × IsNext 1000 0 k
next_power_of_two_lem_example = next_power_of_two_lem 1000 (omega arith)

-- A buffer of two slots, the first `n` of them reserved.
abbrev pub two_slots : ℕ → VolatileRingBuffer
two_slots n = record {
  slots = taken 0 n ++ replicate (2 - n) Slot.new;
  memory = replicate 512 0;
  prod_seq = record { value = n; mask = 1 };
  cons_seq = record { value = 0; mask = 1 };
  capacity = 2;
  slot_size = 256;
  overflow_queue = [];
  max_overflow = 1000;
  max_spins = 100;
}

pub two_slots-Filled : (n : ℕ) → n ≤ 2 → Filled 1 n (two_slots n)
two_slots-Filled n room = record {
  small = omega arith;
  room = room;
  capacity_eq = refl;
  slots_eq = refl;
  prod_eq = refl;
  cons_eq = refl;
  slot_size_eq = refl;
  max_overflow_eq = refl;
  max_spins_eq = refl;
}

reserve-blocked_example : reserve 10 (two_slots 2) 40 true ≡ unfinished
reserve-blocked_example =
    reserve-blocked 1 40 10 (two_slots 2) (two_slots-Filled 2 (omega arith)) (omega arith)
