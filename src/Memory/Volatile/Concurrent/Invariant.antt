-- ===== src/Memory/Volatile/Concurrent/Invariant.antt =====
-- What holds between two steps of the producers.
use ring_buffer.Prelude.{
  ℕ, zero, suc, ◌+◌, ◌-◌, ◌^◌, ◌≤◌, ◌<◌, ◌≡◌, ap, ◌∙◌, List, [], ◌∷◌, ◌++◌, Option, none, some,
  Bool, true, false, arith, ltb, if◌then◌else◌, length, get_elem?,
}
use ring_buffer.Memory.Slot.{Slot}
use ring_buffer.Memory.Volatile.Concurrent.{Shared, Pc, idle, loaded, found, taken, stored, granted}

-- The numbers from `n` on, `count` of them.
abbrev pub range_from : ℕ → ℕ → List ℕ
range_from n zero = []
range_from n (suc count) = n ∷ range_from (suc n) count

pub range_from-snoc :
    (n count : ℕ) → range_from n count ++ ((n + count) ∷ []) ≡ range_from n (suc count)
range_from-snoc n zero = ap (λ m. m ∷ []) (omega arith)
range_from-snoc n (suc count) =
    ap (λ l. n ∷ l)
      (ap (λ m. range_from (suc n) count ++ (m ∷ [])) (omega arith) ∙ range_from-snoc (suc n) count)

-- The sequence number that a producer has reserved.
abbrev pub holds : Pc → Option ℕ
holds idle = none
holds (loaded p) = none
holds (found p) = none
holds (taken p) = some p
holds (stored p) = some p
holds (granted p) = some p

-- What a producer's own number says of `prod_seq` and of the reservations made.
abbrev pub Knows : ℕ → ℕ → Pc → Type 0
Knows prod count idle = Unit {0}
Knows prod count (loaded p) = p ≤ prod
Knows prod count (found p) = p ≤ prod
Knows prod count (taken p) = (p ≡ prod) × (count ≡ prod + 1)
Knows prod count (stored p) = p < prod
Knows prod count (granted p) = p < prod

-- Between the transition of the slot and the store of `prod_seq`.
abbrev pub is_storing : Pc → Bool
is_storing (taken p) = true
is_storing idle = false
is_storing (loaded p) = false
is_storing (found p) = false
is_storing (stored p) = false
is_storing (granted p) = false

-- A slot is reserved below `count`, and empty from there on.
abbrev pub SlotIs : ℕ → ℕ → List Slot → Type 0
SlotIs count i slots =
    (s : Slot) × (get_elem? slots i ≡ some s) × (s.code ≡ (if ltb i count then 1 else 0))

pub record Inv (k : ℕ) (m : Shared) (pc : ℕ → Pc) : Type 0 where
  pub small : k ≤ 54
  pub mask : m.buffer.prod_seq.mask ≡ 2 ^ k - 1
  pub slots_length : length m.buffer.slots ≡ 2 ^ k
  pub in_order : m.handed ≡ range_from 0 (length m.handed)
  pub room : length m.handed ≤ 2 ^ k
  pub prod_le : m.buffer.prod_seq.value ≤ length m.handed
  pub le_prod : length m.handed ≤ m.buffer.prod_seq.value + 1
  pub slots_are : (i : ℕ) → i < 2 ^ k → SlotIs (length m.handed) i m.buffer.slots
  pub known : (i : ℕ) → Knows m.buffer.prod_seq.value (length m.handed) (pc i)
  pub storing :
      length m.handed ≡ m.buffer.prod_seq.value + 1
      → (i : ℕ) × (pc i ≡ taken m.buffer.prod_seq.value)
  pub unique : (i j p : ℕ) → holds (pc i) ≡ some p → holds (pc j) ≡ some p → i ≡ j
