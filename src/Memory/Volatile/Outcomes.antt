-- ===== src/Memory/Volatile/Outcomes.antt =====
-- What `write`, `commit` and `read` do in the states of `Filled`.
use native.Mathlib.Nat.{zero-mod, one-le-pow}
use ring_buffer.Prelude.{
  ℕ, suc, ◌+◌, ◌-◌, ◌%◌, ◌^◌, ◌≤◌, ◌<◌, ◌≡◌, refl, ap, ◌∙◌, sym, List, [], ◌∷◌, ◌++◌, some, Bool,
  true, false, arith, length, get_elem?, replicate, get_elem?-replicate, get_elem?-set_self,
  length-replicate, drop, ℕ_discrete, lt→ltb, not_lt→ltb, dec_lt, if-of_true, if-of_false,
  length-set, le→leb, length-append,
}
use ring_buffer.Platform.{Platform, sub64}
use ring_buffer.Memory.Record.{Record}
use ring_buffer.Memory.Run.{returns, ◌>>=◌, or_panic}
use ring_buffer.Memory.Index
use ring_buffer.Memory.Index.Powers.{physical_index_lem}
use ring_buffer.Memory.Slot
use ring_buffer.Memory.Slot.{Slot, SlotState}
use ring_buffer.Memory.Volatile.{VolatileRingBuffer, Reservation}
use ring_buffer.Memory.Volatile.Reserved.{
  with_record, write_reserved, with_slot, drop_slot, drop_reserved, commit_slot, commit,
}
use ring_buffer.Memory.Volatile.Write.{push_overflow, fill, finish_write, write}
use ring_buffer.Memory.Volatile.Read.{
  Reading, is_ready, read_loop, finish_read, start_reading, read,
}
use ring_buffer.Memory.Volatile.Filled.{
  Filled, copy_of, reserved_in, reservation_of, get_elem?-slots, get_elem?-taken,
}
use ring_buffer.Memory.Volatile.Reserve.{reserve-free, reserve-full}

-- No transition out of `Reserved` is made in an empty slot.
no_transition :
    (to : SlotState) → Slot.try_transition Slot.new SlotState.reserved to ≡ (false, Slot.new)
unfolding Slot.try_transition Slot.new
no_transition to = refl

-- A reservation that is not committed, over an empty slot.
record Fresh (r : Reservation) : Type 0 where
  open_eq : r.committed ≡ false
  slot_eq : get_elem? r.buffer.slots r.slot_idx ≡ some Slot.new
  inside : r.slot_idx < length r.buffer.slots

with_slot-Fresh : (r : Reservation) → Fresh r → Fresh (with_slot r Slot.new)
with_slot-Fresh r f = record {
  open_eq = f.open_eq;
  slot_eq = get_elem?-set_self r.buffer.slots r.slot_idx Slot.new f.inside;
  inside = omega (arith, length-set r.buffer.slots r.slot_idx Slot.new, f.inside);
}

drop_slot-new : (r : Reservation) → drop_slot r Slot.new ≡ returns (with_slot r Slot.new)
unfolding drop_slot Slot.try_transition Slot.new
drop_slot-new r = refl

drop_reserved-Fresh : (r : Reservation) → Fresh r → drop_reserved r ≡ returns (with_slot r Slot.new)
unfolding drop_reserved
drop_reserved-Fresh r f =
    if-of_false (returns r) (or_panic (get_elem? r.buffer.slots r.slot_idx) >>= drop_slot r)
      f.open_eq
    ∙ ap (λ o. or_panic o >>= drop_slot r) f.slot_eq
    ∙ drop_slot-new r

commit_slot-new :
    (r : Reservation) (signal : Bool)
    → commit_slot r signal Slot.new
      ≡ (drop_reserved (with_slot r Slot.new) >>= λ r'. returns (r', signal))
unfolding commit_slot Slot.try_transition Slot.new
commit_slot-new r signal = refl

-- The reservation behind a commit.
pub left_open : Reservation → Reservation
left_open r = with_slot (with_slot r Slot.new) Slot.new

commit-Fresh :
    (r : Reservation) (signal : Bool) → Fresh r → commit r signal ≡ returns (left_open r, signal)
unfolding commit left_open
commit-Fresh r signal f =
    if-of_false (returns (r, signal))
      (or_panic (get_elem? r.buffer.slots r.slot_idx) >>= commit_slot r signal) f.open_eq
    ∙ ap (λ o. or_panic o >>= commit_slot r signal) f.slot_eq
    ∙ commit_slot-new r signal
    ∙ ap (λ m. m >>= λ r'. returns (r', signal))
        (drop_reserved-Fresh (with_slot r Slot.new) (with_slot-Fresh r f))

module _ ⦃p : Platform⦄ where
  with_record-Fresh :
      (k n total : ℕ) (b : VolatileRingBuffer) (r : Record)
      → n < 2 ^ k
      → Fresh (with_record (reservation_of k b n total) r.header r.bytes)
  unfolding with_record reservation_of copy_of
  with_record-Fresh k n total b r h = record {
    open_eq = refl;
    slot_eq = get_elem?-replicate (2 ^ k) n Slot.new h;
    inside = omega (arith, length-replicate (2 ^ k) Slot.new);
  }

  write_reserved-fits :
      (k n size : ℕ) (b : VolatileRingBuffer) (r : Record)
      → size ≤ 232
      → length r.bytes ≤ size
      → let res = reservation_of k b n (size + 24) in
        write_reserved res r.header r.bytes ≡ returns (with_record res r.header r.bytes)
  unfolding write_reserved reservation_of
  write_reserved-fits k n size b r fits inside =
      if-of_true _ _ (le→leb (length r.bytes) (sub64 (size + 24) 24) (omega arith))

  -- The reservation behind the write and the commit of a record.
  pub spent : ℕ → ℕ → ℕ → VolatileRingBuffer → Record → Reservation
  spent k n size b r = left_open (with_record (reservation_of k b n (size + 24)) r.header r.bytes)

  committed-spent :
      (k n size : ℕ) (b : VolatileRingBuffer) (r : Record) → (spent k n size b r).committed ≡ false
  unfolding spent left_open with_record reservation_of
  committed-spent k n size b r = refl

  -- In a buffer with its first `n` slots reserved and one free, a record of at most the size
  -- reserved, itself at most 232 bytes, that is written into the reservation of the next slot and
  -- committed leaves the reservation uncommitted, and the consumer is not notified.
  pub fill-reservation :
      (k n size : ℕ) (b : VolatileRingBuffer) (r : Record) (signal : Bool)
      → Filled k n b
      → n < 2 ^ k
      → size ≤ 232
      → length r.bytes ≤ size
      → (r' : Reservation) × (fill (reservation_of k b n (size + 24)) r signal
          ≡ returns (r', signal))
        × (r'.committed ≡ false)
  unfolding fill spent
  fill-reservation k n size b r signal f h fits inside = (
    spent k n size b r,
    ap (λ m. m >>= λ res'. commit res' signal) (write_reserved-fits k n size b r fits inside)
        ∙ commit-Fresh _ signal (with_record-Fresh k n (size + 24) b r h),
    committed-spent k n size b r,
  )

  pub write-free :
      (k n : ℕ) (b : VolatileRingBuffer) (r : Record) (signal : Bool)
      → Filled k n b
      → n < 2 ^ k
      → length r.bytes ≤ 232
      → write b r signal ≡ returns (true, reserved_in b n, signal)
  unfolding write finish_write
  write-free k n b r signal f h fits =
      let (r', e, _) = fill-reservation k n (length r.bytes) b r signal f h fits (omega arith) in
      rw (reserve-free k n (length r.bytes) 0 false b f h fits, e) refl

  pub write-full :
      (k : ℕ) (b : VolatileRingBuffer) (r : Record) (signal : Bool)
      → Filled k (2 ^ k) b
      → length r.bytes ≤ 232
      → write b r signal
        ≡ returns (
          false,
          record b { overflow_queue = push_overflow b.max_overflow b.overflow_queue r },
          signal,
        )
  unfolding write finish_write
  write-full k b r signal f fits = rw (reserve-full k (length r.bytes) 0 b f fits) refl

  -- The loop of `read` stops at a slot that is not ready.
  read_loop-stop :
      (left : ℕ) (s : Reading) (slot : Slot)
      → get_elem? s.buffer.slots (Index.physical_index s.buffer.cons_seq s.cons_seq) ≡ some slot
      → is_ready slot s.cons_seq ≡ false
      → read_loop (suc left) s ≡ returns s
  unfolding read_loop
  read_loop-stop left s slot e idle = rw e (if-of_false _ (returns s) idle)

  -- The slot that the consumer looks at is reserved or empty.
  first_slot :
      (k n : ℕ) (b : VolatileRingBuffer)
      → Filled k n b
      → (slot : Slot) × (get_elem? b.slots (Index.physical_index b.cons_seq b.cons_seq.value)
          ≡ some slot)
        × (is_ready slot b.cons_seq.value ≡ false)
  unfolding is_ready Slot.state Slot.new
  first_slot k n b f =
      let index : Index.physical_index b.cons_seq b.cons_seq.value ≡ 0 =
        physical_index_lem b.cons_seq k b.cons_seq.value (ap (λ i. i.mask) f.cons_eq)
        ∙ ap (λ i. i.value % 2 ^ k) f.cons_eq
        ∙ zero-mod (2 ^ k) in
      elim (ℕ_discrete n 0) [
        | yes e ↦ (
          Slot.new,
          ap (get_elem? b.slots) (index ∙ sym e)
              ∙ get_elem?-slots k n b f (omega (arith, e, one-le-pow k 2 (omega arith))),
          refl,
        )
        | no ne ↦ (
          record { code = 1; seq = 0 },
          ap (get_elem? b.slots) index
              ∙ ap (λ l. get_elem? l 0) f.slots_eq
              ∙ get_elem?-taken n (replicate (2 ^ k - n) Slot.new) (omega arith),
          refl,
        )
      ]

  -- In each of the states `read` returns no record and changes nothing.
  pub read-Filled :
      (k n : ℕ) (b : VolatileRingBuffer) (signal : Bool)
      → Filled k n b
      → read b signal ≡ returns ([], b, signal)
  unfolding read finish_read
  read-Filled k n b signal f =
      let count : b.capacity ≡ suc (2 ^ k - 1) =
        omega (arith, f.capacity_eq, one-le-pow k 2 (omega arith)) in
      let (slot, found, idle) = first_slot k n b f in
      ap (λ c. read_loop c (start_reading b) >>= finish_read signal) count
      ∙ ap (λ m. m >>= finish_read signal)
          (read_loop-stop (2 ^ k - 1) (start_reading b) slot found idle)

-- The newest `max` elements.
abbrev pub newest {ℓ} : {A : Type ℓ} → ℕ → List A → List A
newest max xs = drop (length xs - max) xs

-- With a positive limit and a queue within it, the overflow branch of `write` leaves the newest
-- records of the queue with the new one behind it, up to the limit.
pub push_overflow_lem :
    (max : ℕ) (q : List Record) (r : Record)
    → length q ≤ max
    → 0 < max
    → push_overflow max q r ≡ newest max (q ++ (r ∷ []))
unfolding push_overflow
push_overflow_lem max [] r h pos =
    let short : 1 - max ≡ 0 = omega arith in rw (lt→ltb 0 max pos, short) refl
push_overflow_lem max (x ∷ q) r h pos = elim (dec_lt (length (x ∷ q)) max) [
  | yes room ↦
      let all : suc (length (q ++ (r ∷ []))) - max ≡ 0 = omega (arith, length-append q (r ∷ [])) in
      rw (lt→ltb _ _ room, all) refl
  | no full ↦
      let one : suc (length (q ++ (r ∷ []))) - max ≡ 1 = omega (arith, length-append q (r ∷ [])) in
      rw (not_lt→ltb _ _ full, one) refl
]
