-- ===== src/Memory/Volatile/Reserve.antt =====
-- `VolatileRingBuffer::reserve` in each of the states of `Filled`.
use native.Mathlib.Nat.{mod-eq_of_lt, mod_self, one-le-pow}
use ring_buffer.Prelude.{
  ℕ, zero, suc, ◌+◌, ◌-◌, ◌^◌, ◌≤◌, ◌<◌, ◌≡◌, refl, ap, ◌∙◌, none, some, Bool, true, false, not,
  ◌&&◌, arith, ltb, leb, if◌then◌else◌, get_elem?, replicate, not_le→leb,
}
use ring_buffer.Platform.{add64}
use ring_buffer.Memory.Run.{returns, panic, unfinished, ◌>>=◌, or_panic}
use ring_buffer.Memory.Index
use ring_buffer.Memory.Index.{AtomicIndex}
use ring_buffer.Memory.Slot
use ring_buffer.Memory.Slot.{Slot, SlotState}
use ring_buffer.Memory.Volatile.{
  VolatileRingBuffer, take_slot, attempt_slot, attempt, after_attempt, spin, reserve,
}
use ring_buffer.Memory.Volatile.Filled.{
  Filled, power_bound, clone-eq, reserved_in, reservation_of, get_elem?-slots, prod_index,
  get_elem?-taken,
}

if_same {ℓ} : {A : Type ℓ} (x : Bool) (a b : A) → b ≡ a → (if x then a else b) ≡ a
if_same true a b e = refl
if_same false a b e = e

attempt_slot-empty :
    (b : VolatileRingBuffer) (prod_seq slot_idx total_size : ℕ)
    → attempt_slot b prod_seq slot_idx total_size Slot.new
      ≡ take_slot b prod_seq slot_idx total_size (record { code = 1; seq = 0 })
unfolding attempt_slot Slot.new Slot.state Slot.try_transition
attempt_slot-empty b prod_seq slot_idx total_size = refl

attempt_slot-taken :
    (b : VolatileRingBuffer) (prod_seq slot_idx total_size seq : ℕ)
    → attempt_slot b prod_seq slot_idx total_size (record { code = 1; seq = seq })
      ≡ returns (none, b)
unfolding attempt_slot Slot.state
attempt_slot-taken b prod_seq slot_idx total_size seq = refl

take_slot-eq :
    (k n total_size : ℕ) (b : VolatileRingBuffer)
    → Filled k n b
    → n < 2 ^ k
    → take_slot b n n total_size (record { code = 1; seq = 0 })
      ≡ returns (some (reservation_of k b n total_size), reserved_in b n)
unfolding take_slot reservation_of reserved_in
take_slot-eq k n total_size b f h =
    let next : add64 n 1 ≡ n + 1 = omega (arith, power_bound k f.small) in
    rw (next, clone-eq k (reserved_in b n) f.small f.capacity_eq f.slot_size_eq) refl

attempt-free :
    (k n total_size : ℕ) (b : VolatileRingBuffer)
    → Filled k n b
    → n < 2 ^ k
    → attempt b total_size ≡ returns (some (reservation_of k b n total_size), reserved_in b n)
unfolding attempt
attempt-free k n total_size b f h =
    let value : b.prod_seq.value ≡ n = ap (λ i. i.value) f.prod_eq in
    let index : Index.physical_index b.prod_seq b.prod_seq.value ≡ n =
      prod_index k n b f ∙ mod-eq_of_lt h in
    ap (λ i. or_panic (get_elem? b.slots i) >>= attempt_slot b b.prod_seq.value i total_size) index
    ∙ ap (λ o. or_panic o >>= attempt_slot b b.prod_seq.value n total_size)
        (get_elem?-slots k n b f h)
    ∙ attempt_slot-empty b b.prod_seq.value n total_size
    ∙ ap (λ v. take_slot b v n total_size (record { code = 1; seq = 0 })) value
    ∙ take_slot-eq k n total_size b f h

pub attempt-full :
    (k total_size : ℕ) (b : VolatileRingBuffer)
    → Filled k (2 ^ k) b
    → attempt b total_size ≡ returns (none, b)
unfolding attempt
attempt-full k total_size b f =
    let index : Index.physical_index b.prod_seq b.prod_seq.value ≡ 0 =
      prod_index k (2 ^ k) b f ∙ mod_self (2 ^ k) in
    let first : get_elem? b.slots 0 ≡ some (record { code = 1; seq = 0 }) =
      ap (λ l. get_elem? l 0) f.slots_eq
      ∙ get_elem?-taken (2 ^ k) (replicate (2 ^ k - 2 ^ k) Slot.new)
          (one-le-pow k 2 (omega arith)) in
    ap (λ i. or_panic (get_elem? b.slots i) >>= attempt_slot b b.prod_seq.value i total_size) index
    ∙ ap (λ o. or_panic o >>= attempt_slot b b.prod_seq.value 0 total_size) first
    ∙ attempt_slot-taken b b.prod_seq.value 0 total_size 0

-- The spin loop takes the first free slot at once, and finds none in a full buffer.
spin-free :
    (k n total_size left spins : ℕ) (block : Bool) (b : VolatileRingBuffer)
    → Filled k n b
    → n < 2 ^ k
    → spin (suc left) spins b total_size block
      ≡ returns (some (reservation_of k b n total_size), reserved_in b n)
unfolding spin after_attempt
spin-free k n total_size left spins block b f h = rw (attempt-free k n total_size b f h) refl

spin-full :
    (k total_size left spins : ℕ) (block : Bool) (b : VolatileRingBuffer)
    → Filled k (2 ^ k) b
    → spin left spins b total_size block ≡ returns (none, b)
unfolding spin after_attempt
spin-full k total_size zero spins block b f = refl
spin-full k total_size (suc left) spins block b f = rw (attempt-full k total_size b f) (
    if_same (not block && ltb 10 (spins + 1)) (returns (none, b)) _
      (spin-full k total_size left (spins + 1) block b f))

-- `reserve` in each state: the next slot while there is one.
pub reserve-free :
    (k n size fuel : ℕ) (block : Bool) (b : VolatileRingBuffer)
    → Filled k n b
    → n < 2 ^ k
    → size ≤ 232
    → reserve (suc fuel) b size block
      ≡ returns (some (reservation_of k b n (size + 24)), reserved_in b n)
unfolding reserve after_attempt
reserve-free k n size fuel block b f h fits =
    let total : add64 size 24 ≡ size + 24 = omega arith in
    let inside : leb (size + 24) b.slot_size ≡ true = ground (arith, f.slot_size_eq) in
    let found =
      ap (λ m. spin m 0 b (size + 24) block) f.max_spins_eq
      ∙ spin-free k n (size + 24) 99 0 block b f h in
    rw (total, inside, found) refl

-- In a full buffer a call that does not block gives up, and leaves the buffer.
pub reserve-full :
    (k size fuel : ℕ) (b : VolatileRingBuffer)
    → Filled k (2 ^ k) b
    → size ≤ 232
    → reserve (suc fuel) b size false ≡ returns (none, b)
unfolding reserve after_attempt
reserve-full k size fuel b f fits =
    let total : add64 size 24 ≡ size + 24 = omega arith in
    let inside : leb (size + 24) b.slot_size ≡ true = ground (arith, f.slot_size_eq) in
    rw (total, inside, spin-full k (size + 24) b.max_spins 0 false b f) refl

-- In a buffer with all its slots reserved, a blocking `reserve` of at most 232 bytes does not
-- return, with any fuel, while no other thread frees a slot.
pub reserve-blocked :
    (k size fuel : ℕ) (b : VolatileRingBuffer)
    → Filled k (2 ^ k) b
    → size ≤ 232
    → reserve fuel b size true ≡ unfinished
unfolding reserve after_attempt
reserve-blocked k size zero b f fits = refl
reserve-blocked k size (suc fuel) b f fits =
    let total : add64 size 24 ≡ size + 24 = omega arith in
    let inside : leb (size + 24) b.slot_size ≡ true = ground (arith, f.slot_size_eq) in
    rw (total, inside, spin-full k (size + 24) b.max_spins 0 true b f)
      (reserve-blocked k size fuel b f fits)

-- A size that does not fit a slot with its header panics, in any buffer.
pub reserve-too_large :
    (size fuel : ℕ) (block : Bool) (b : VolatileRingBuffer)
    → b.slot_size < size + 24
    → size < 2 ^ 63
    → reserve (suc fuel) b size block ≡ panic
unfolding reserve
reserve-too_large size fuel block b over small =
    let total : add64 size 24 ≡ size + 24 = omega arith in
    rw (total, not_le→leb (size + 24) b.slot_size (omega arith)) refl
