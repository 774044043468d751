-- ===== src/Memory/Volatile/Filled.antt =====
-- The states that a volatile buffer goes through: the first slots reserved, the others empty.
use native.Mathlib.Nat.{pow-le-pow_right}
use ring_buffer.Prelude.{
  ℕ, zero, suc, ◌+◌, ◌-◌, ◌*◌, ◌%◌, ◌^◌, ◌≤◌, ◌<◌, ◌≡◌, refl, ap, ◌∙◌, sym, List, [], ◌∷◌, ◌++◌,
  some, true, false, leb, le→leb, arith, length, get_elem?, set, replicate, get_elem?-append,
  set-append,
}
use ring_buffer.Platform.{mul64, fits_vec}
use ring_buffer.Memory.Run.{returns}
use ring_buffer.Memory.Index
use ring_buffer.Memory.Index.{AtomicIndex}
use ring_buffer.Memory.Index.Powers.{physical_index_lem, new-power}
use ring_buffer.Memory.Slot
use ring_buffer.Memory.Slot.{Slot, SlotState}
use ring_buffer.Memory.Volatile.{VolatileRingBuffer, Reservation, allocated, clone, new}

-- Reserved slots, under the sequence numbers from `seq` on.
abbrev pub taken : ℕ → ℕ → List Slot
taken seq zero = []
taken seq (suc n) = record { code = 1; seq = seq } ∷ taken (suc seq) n

length-taken : (seq n : ℕ) → length (taken seq n) ≡ n
length-taken seq zero = refl
length-taken seq (suc n) = ap suc (length-taken (suc seq) n)

taken-snoc :
    (seq n : ℕ) → taken seq n ++ (record { code = 1; seq = seq + n } ∷ []) ≡ taken seq (suc n)
taken-snoc seq zero = ap (λ s. record { code = 1; seq = s } ∷ []) (omega arith)
taken-snoc seq (suc n) =
    ap (λ l. record { code = 1; seq = seq } ∷ l)
      (ap (λ s. taken (suc seq) n ++ (record { code = 1; seq = s } ∷ [])) (omega arith)
        ∙ taken-snoc (suc seq) n)

-- A buffer of 2^k slots of 256 bytes, `n` of them reserved, with nothing consumed.
pub record Filled (k n : ℕ) (b : VolatileRingBuffer) : Type 0 where
  pub small : k ≤ 54
  pub room : n ≤ 2 ^ k
  pub capacity_eq : b.capacity ≡ 2 ^ k
  pub slots_eq : b.slots ≡ taken 0 n ++ replicate (2 ^ k - n) Slot.new
  pub prod_eq : b.prod_seq ≡ record { value = n; mask = 2 ^ k - 1 }
  pub cons_eq : b.cons_seq ≡ record { value = 0; mask = 2 ^ k - 1 }
  pub slot_size_eq : b.slot_size ≡ 256
  pub max_overflow_eq : b.max_overflow ≡ 1000
  pub max_spins_eq : b.max_spins ≡ 100

pub power_bound : (k : ℕ) → k ≤ 54 → 2 ^ k ≤ 2 ^ 63
power_bound k h =
    let small : k ≤ 63 = omega (arith, h) in pow-le-pow_right {n = 2} (omega arith) small

-- The data section of 2^k slots of 256 bytes can be allocated.
allocated-power : (k : ℕ) → k ≤ 54 → allocated (2 ^ k) 256 ≡ returns (replicate (2 ^ k * 256) 0)
unfolding allocated fits_vec
allocated-power k h =
    let bound : 2 ^ k ≤ 2 ^ 54 = pow-le-pow_right {n = 2} (omega arith) h in
    let total : mul64 (2 ^ k) 256 ≡ 2 ^ k * 256 = omega (arith, bound) in
    let slots : leb (2 ^ k * 16) (2 ^ 63 - 1) ≡ true = le→leb _ _ (omega (arith, bound)) in
    let bytes : leb (2 ^ k * 256 * 1) (2 ^ 63 - 1) ≡ true = le→leb _ _ (omega (arith, bound)) in
    rw (total, slots, bytes) refl

-- A new buffer.
abbrev pub blank : ℕ → VolatileRingBuffer
blank k = record {
  slots = replicate (2 ^ k) Slot.new;
  memory = replicate (2 ^ k * 256) 0;
  prod_seq = record { value = 0; mask = 2 ^ k - 1 };
  cons_seq = record { value = 0; mask = 2 ^ k - 1 };
  capacity = 2 ^ k;
  slot_size = 256;
  overflow_queue = [];
  max_overflow = 1000;
  max_spins = 100;
}

pub new-blank :
    (capacity k : ℕ)
    → Index.next_power_of_two capacity ≡ 2 ^ k
    → k ≤ 54
    → new capacity ≡ returns (blank k)
unfolding new
new-blank capacity k e small =
    let index = new-power k (omega (arith, small)) in rw (e, allocated-power k small, index) refl

pub blank-Filled : (k : ℕ) → k ≤ 54 → Filled k 0 (blank k)
blank-Filled k small =
    let all : 2 ^ k ≡ 2 ^ k - 0 = omega arith in
    record {
      small = small;
      room = omega arith;
      capacity_eq = refl;
      slots_eq = ap (λ m. replicate m Slot.new) all;
      prod_eq = refl;
      cons_eq = refl;
      slot_size_eq = refl;
      max_overflow_eq = refl;
      max_spins_eq = refl;
    }

-- The buffer that a reservation gets.
unfoldable pub copy_of : ℕ → VolatileRingBuffer → VolatileRingBuffer
copy_of k b = record b {
  slots = replicate (2 ^ k) Slot.new;
  memory = replicate (2 ^ k * 256) 0;
  prod_seq = record { value = 0; mask = 2 ^ k - 1 };
  cons_seq = record { value = 0; mask = 2 ^ k - 1 };
  overflow_queue = [];
}

pub clone-eq :
    (k : ℕ) (b : VolatileRingBuffer)
    → k ≤ 54
    → b.capacity ≡ 2 ^ k
    → b.slot_size ≡ 256
    → clone b ≡ returns (copy_of k b)
unfolding clone copy_of
clone-eq k b small cap size =
    rw (cap, size, allocated-power k small, new-power k (omega (arith, small))) refl

-- The buffer with one more slot reserved, and the reservation.
unfoldable pub reserved_in : VolatileRingBuffer → ℕ → VolatileRingBuffer
reserved_in b n = record b {
  slots = set b.slots n (record { code = 1; seq = n });
  prod_seq = Index.store b.prod_seq (n + 1);
}

unfoldable pub reservation_of : ℕ → VolatileRingBuffer → ℕ → ℕ → Reservation
reservation_of k b n total_size = record {
  slot_idx = n;
  seq = n;
  size = total_size;
  buffer = copy_of k (reserved_in b n);
  committed = false;
}

-- The slots, with the first one that is not reserved in view.
slots-split :
    (k n : ℕ) (b : VolatileRingBuffer)
    → Filled k n b
    → n < 2 ^ k
    → b.slots ≡ taken 0 n ++ (Slot.new ∷ replicate (2 ^ k - (n + 1)) Slot.new)
slots-split k n b f h =
    let e : 2 ^ k - n ≡ suc (2 ^ k - (n + 1)) = omega arith in
    f.slots_eq ∙ ap (λ m. taken 0 n ++ replicate m Slot.new) e

pub get_elem?-slots :
    (k n : ℕ) (b : VolatileRingBuffer)
    → Filled k n b
    → n < 2 ^ k
    → get_elem? b.slots n ≡ some Slot.new
get_elem?-slots k n b f h =
    ap (λ l. get_elem? l n) (slots-split k n b f h)
    ∙ ap (get_elem? (taken 0 n ++ (Slot.new ∷ replicate (2 ^ k - (n + 1)) Slot.new)))
        (sym (length-taken 0 n))
    ∙ get_elem?-append (taken 0 n) Slot.new (replicate (2 ^ k - (n + 1)) Slot.new)

set-slots :
    (k n : ℕ) (b : VolatileRingBuffer)
    → Filled k n b
    → n < 2 ^ k
    → set b.slots n (record { code = 1; seq = n })
      ≡ taken 0 (n + 1) ++ replicate (2 ^ k - (n + 1)) Slot.new
set-slots k n b f h =
    let rest = replicate (2 ^ k - (n + 1)) Slot.new in
    let slot : Slot = record { code = 1; seq = n } in
    let e : suc n ≡ n + 1 = omega arith in
    ap (λ l. set l n slot) (slots-split k n b f h)
    ∙ ap (λ i. set (taken 0 n ++ (Slot.new ∷ rest)) i slot) (sym (length-taken 0 n))
    ∙ set-append (taken 0 n) Slot.new slot rest
    ∙ ap (λ (s : ℕ). (taken 0 n ++ (record { code = 1; seq = s } ∷ [])) ++ rest) (omega arith)
    ∙ ap (λ l. l ++ rest) (taken-snoc 0 n)
    ∙ ap (λ m. taken 0 m ++ rest) e

pub reserved_in-Filled :
    (k n : ℕ) (b : VolatileRingBuffer)
    → Filled k n b
    → n < 2 ^ k
    → Filled k (n + 1) (reserved_in b n)
unfolding reserved_in
reserved_in-Filled k n b f h = record {
  small = f.small;
  room = omega (arith, h);
  capacity_eq = f.capacity_eq;
  slots_eq = set-slots k n b f h;
  prod_eq = ap (λ i. Index.store i (n + 1)) f.prod_eq;
  cons_eq = f.cons_eq;
  slot_size_eq = f.slot_size_eq;
  max_overflow_eq = f.max_overflow_eq;
  max_spins_eq = f.max_spins_eq;
}

-- The physical index of the production sequence.
pub prod_index :
    (k n : ℕ) (b : VolatileRingBuffer)
    → Filled k n b
    → Index.physical_index b.prod_seq b.prod_seq.value ≡ n % 2 ^ k
prod_index k n b f =
    physical_index_lem b.prod_seq k b.prod_seq.value (ap (λ i. i.mask) f.prod_eq)
    ∙ ap (λ i. i.value % 2 ^ k) f.prod_eq

pub get_elem?-taken :
    (n : ℕ) (ys : List Slot)
    → 0 < n
    → get_elem? (taken 0 n ++ ys) 0 ≡ some (record { code = 1; seq = 0 })
get_elem?-taken zero ys h = absurd (omega arith)
get_elem?-taken (suc n) ys h = refl
