-- ===== src/Memory/Volatile/Concurrent/Consumer.antt =====
-- A consumer that calls `read` between the moves of the producers.
use native.Mathlib.Nat.{mod-lt, one-le-pow}
use ring_buffer.Prelude.{ℕ, ◌%◌, ◌^◌, ◌≤◌, ◌≡◌, refl, ap, ◌∙◌, [], Bool, false, arith, get_elem?}
use ring_buffer.Platform.{Platform}
use ring_buffer.Memory.Run.{returns}
use ring_buffer.Memory.Index.Powers.{physical_index_lem}
use ring_buffer.Memory.Slot
use ring_buffer.Memory.Slot.{Slot}
use ring_buffer.Memory.Volatile.{VolatileRingBuffer}
use ring_buffer.Memory.Volatile.Filled.{Filled}
use ring_buffer.Memory.Volatile.Read.{is_ready, read}
use ring_buffer.Memory.Volatile.Ready.Loop.{read-idle}
use ring_buffer.Memory.Volatile.Concurrent.{
  Shared, Pc, Move, load_prod, find_empty, find_busy, win, lose, store_prod, set_seq, finish,
  Producers, pick, Reach, here, later,
}
use ring_buffer.Memory.Volatile.Concurrent.Exclusive.{Reach-Inv}

-- No move of a producer touches the consumption sequence.
cons_seq-Move :
    {m m' : Shared} {p p' : Pc} → Move m p m' p' → m'.buffer.cons_seq ≡ m.buffer.cons_seq
cons_seq-Move load_prod = refl
cons_seq-Move (find_empty at e) = refl
cons_seq-Move (find_busy at e) = refl
cons_seq-Move (win at e) = refl
cons_seq-Move (lose at e) = refl
cons_seq-Move store_prod = refl
cons_seq-Move (set_seq at) = refl
cons_seq-Move finish = refl

pub cons_seq-Reach :
    {b : VolatileRingBuffer} {s : Producers} → Reach b s → s.shared.buffer.cons_seq ≡ b.cons_seq
cons_seq-Reach here = refl
cons_seq-Reach (later r (pick i mv)) = cons_seq-Move mv ∙ cons_seq-Reach r

module _ ⦃p : Platform⦄ where
  -- A slot that is empty or reserved is not ready.
  is_ready-low : (slot : Slot) (seq : ℕ) → slot.code ≤ 1 → is_ready slot seq ≡ false
  unfolding is_ready Slot.state Slot.from_u8
  is_ready-low slot seq h = ground (arith, h)

  -- Any number of producers are in `reserve` on one buffer, which starts as `new` makes it, with
  -- 2^k slots, all of them empty, and their atomic accesses interleave in any order. In every
  -- state that they reach, a `read` of the buffer returns no record and changes nothing, whichever
  -- access each of the producers is at.
  pub read-Reach :
      (k : ℕ) (b : VolatileRingBuffer) (s : Producers) (signal : Bool)
      → Filled k 0 b
      → Reach b s
      → read s.shared.buffer signal ≡ returns ([], s.shared.buffer, signal)
  read-Reach k b s signal f r =
      let inv = Reach-Inv f r in
      let cons = cons_seq-Reach r ∙ f.cons_eq in
      let seq = s.shared.buffer.cons_seq.value in
      let (slot, at, code) =
        inv.slots_are (seq % 2 ^ k) (mod-lt seq (one-le-pow k 2 (omega arith))) in
      let index = physical_index_lem s.shared.buffer.cons_seq k seq (ap (λ i. i.mask) cons) in
      read-idle s.shared.buffer signal (
        slot,
        ap (get_elem? s.shared.buffer.slots) index ∙ at,
        is_ready-low slot seq (ground (arith, code)),
      )
