-- ===== src/Memory/Volatile/Concurrent/Alone.antt =====
-- A producer that is not interrupted: its moves are a round of `reserve`.
use ring_buffer.Prelude.{
  ℕ, ◌≡◌, ◌≢◌, ap, sym, subst₂, ◌∙◌, List, [], ◌∷◌, ◌++◌, some, Option-cases, inl, inr, true, arith,
  set, set-set, get_elem?-set_self, get_elem?-lt,
}
use ring_buffer.Platform.{add64}
use ring_buffer.Memory.Index
use ring_buffer.Memory.Run.{returns, panic, ◌>>=◌, or_panic}
use ring_buffer.Memory.Slot
use ring_buffer.Memory.Slot.{Slot, SlotState}
use ring_buffer.Memory.Volatile.{VolatileRingBuffer, Reservation, take_slot, attempt_slot, attempt}
use ring_buffer.Memory.Volatile.Concurrent.{
  Shared, Pc, idle, granted, slot_at, Move, load_prod, find_empty, win, store_prod, set_seq,
}

-- Moves of one producer, with no other in between.
pub data Alone (m : Shared) (p : Pc) : Shared → Pc → Type 0 where
  none_yet : Alone m p m p
  and_then :
      {m' m'' : Shared} {p' p'' : Pc} → Alone m p m' p' → Move m' p' m'' p'' → Alone m p m'' p''

-- What a round that succeeds does to the buffer.
record Taken (b : VolatileRingBuffer) (slot_idx p : ℕ) (s : Slot) (r : Reservation)
    (b' : VolatileRingBuffer) : Type 0 where
  was_empty : Slot.state s ≡ SlotState.empty
  won : (Slot.try_transition s SlotState.empty SlotState.reserved).0 ≡ true
  seq_eq : r.seq ≡ p
  after : b' ≡ record b {
    slots =
        set b.slots slot_idx
          (Slot.set_seq (Slot.try_transition s SlotState.empty SlotState.reserved).1 p);
    prod_seq = Index.store b.prod_seq (add64 p 1);
  }

take_slot-Taken :
    (b : VolatileRingBuffer) (p slot_idx total_size : ℕ) (s : Slot) (r : Reservation)
    (b' : VolatileRingBuffer)
    → take_slot b p slot_idx total_size s ≡ returns (some r, b')
    → (r.seq ≡ p)
      × (b' ≡ record b {
        slots = set b.slots slot_idx (Slot.set_seq s p);
        prod_seq = Index.store b.prod_seq (add64 p 1);
      })
unfolding take_slot
take_slot-Taken b p slot_idx total_size s r b' e = ground arith

attempt_slot-Taken :
    (b : VolatileRingBuffer) (p slot_idx total_size : ℕ) (s : Slot) (r : Reservation)
    (b' : VolatileRingBuffer)
    → attempt_slot b p slot_idx total_size s ≡ returns (some r, b')
    → Taken b slot_idx p s r b'
unfolding attempt_slot
attempt_slot-Taken b p slot_idx total_size s r b' e =
    let s' = (Slot.try_transition s SlotState.empty SlotState.reserved).1 in
    record {
      was_empty = ground arith;
      won = ground arith;
      seq_eq = ground (arith, take_slot-Taken b p slot_idx total_size s' r b');
      after = ground (arith, take_slot-Taken b p slot_idx total_size s' r b');
    }

-- The four moves that such a round is made of.
moves-Taken :
    (b b' : VolatileRingBuffer) (handed : List ℕ) (s : Slot) (r : Reservation)
    → slot_at b b.prod_seq.value ≡ some s
    → Taken b (Index.physical_index b.prod_seq b.prod_seq.value) b.prod_seq.value s r b'
    → Alone
        (record { buffer = b; handed = handed })
        idle
        (record { buffer = b'; handed = handed ++ (r.seq ∷ []) })
        (granted r.seq)
unfolding Index.physical_index
moves-Taken b b' handed s r at t =
    let p = b.prod_seq.value in
    let s' = (Slot.try_transition s SlotState.empty SlotState.reserved).1 in
    let i = Index.physical_index b.prod_seq p in
    let inside = get_elem?-lt b.slots i at in
    let won : Slot.try_transition s SlotState.empty SlotState.reserved ≡ (true, s') =
      λ j. (t.won j, s') in
    subst₂
      (λ q c.
        Alone (record { buffer = b; handed = handed }) idle
          (record { buffer = c; handed = handed ++ (q ∷ []) }) (granted q))
      (sym t.seq_eq)
      (ap (λ l. record b { slots = l; prod_seq = Index.store b.prod_seq (add64 p 1) })
          (set-set b.slots i s' (Slot.set_seq s' p))
        ∙ sym t.after)
      (and_then
        (and_then
          (and_then (and_then (and_then none_yet load_prod) (find_empty at t.was_empty))
            (win at won))
          store_prod)
        (set_seq (get_elem?-set_self b.slots i s' inside)))

panic-ne-returns {ℓ} : {A : Type ℓ} {a : A} → panic ≢ returns a
panic-ne-returns e = cc e

-- A round of `reserve` that makes a reservation is, from the loaded sequence number to the stored
-- one of the slot, a sequence of moves of one producer that no other interrupts: it leaves the
-- same buffer, and the reservation has the sequence number that the moves hand out.
pub attempt-Alone :
    (b b' : VolatileRingBuffer) (total_size : ℕ) (handed : List ℕ) (r : Reservation)
    → attempt b total_size ≡ returns (some r, b')
    → Alone
        (record { buffer = b; handed = handed })
        idle
        (record { buffer = b'; handed = handed ++ (r.seq ∷ []) })
        (granted r.seq)
unfolding attempt
attempt-Alone b b' total_size handed r e = elim (Option-cases (slot_at b b.prod_seq.value)) [
  | inl out ↦ absurd (
      panic-ne-returns (
        sym (
          ap
            (λ o.
              or_panic o
              >>= attempt_slot b b.prod_seq.value (Index.physical_index b.prod_seq b.prod_seq.value)
                  total_size)
            out)
        ∙ e))
  | inr (s, at) ↦ moves-Taken b b' handed s r at (
      attempt_slot-Taken b b.prod_seq.value _ total_size s r b' (
        sym (
          ap
            (λ o.
              or_panic o
              >>= attempt_slot b b.prod_seq.value (Index.physical_index b.prod_seq b.prod_seq.value)
                  total_size)
            at)
        ∙ e))
]
