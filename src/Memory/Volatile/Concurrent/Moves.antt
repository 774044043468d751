-- ===== src/Memory/Volatile/Concurrent/Moves.antt =====
-- A step of one producer keeps the invariant.
use native.Mathlib.Nat.{mod-eq_of_lt, mod_self, one-le-pow, pow-le-pow_right}
use ring_buffer.Prelude.{
  ℕ, suc, ◌+◌, ◌%◌, ◌^◌, ◌≤◌, ◌<◌, ◌≡◌, ◌≢◌, refl, ap, sym, subst, ◌∙◌, [], ◌∷◌, ◌++◌, none, some,
  true, false, arith, ltb, if◌then◌else◌, length, get_elem?, set, length-append, length-set,
  get_elem?-set_self, get_elem?-set_ne, ℕ_discrete, dec_lt,
}
use ring_buffer.Platform.{add64}
use ring_buffer.Memory.Index
use ring_buffer.Memory.Index.Powers.{physical_index_lem}
use ring_buffer.Memory.Slot
use ring_buffer.Memory.Slot.{Slot, SlotState}
use ring_buffer.Memory.Volatile.Concurrent.{
  Shared, Pc, idle, loaded, found, taken, stored, granted, slot_at, with_slot, Move, load_prod,
  find_empty, find_busy, win, lose, store_prod, set_seq, finish, moved_to,
}
use ring_buffer.Memory.Volatile.Concurrent.Invariant.{
  range_from, range_from-snoc, is_storing, holds, Knows, SlotIs, Inv,
}

-- What a transition out of `Empty` that was made says of the slot.
transition_won :
    (s s' : Slot)
    → Slot.try_transition s SlotState.empty SlotState.reserved ≡ (true, s')
    → (s.code ≡ 0) × (s'.code ≡ 1)
unfolding Slot.try_transition
transition_won s s' e = ground arith

module _ {k : ℕ} {m : Shared} {pc : ℕ → Pc} (inv : Inv k m pc) (i : ℕ) where
  -- A producer that goes on without a reservation changes nothing for the others.
  still :
      (p p' : Pc)
      → pc i ≡ p
      → is_storing p ≡ false
      → Knows m.buffer.prod_seq.value (length m.handed) p'
      → holds p' ≡ none
      → Inv k m (moved_to pc i p')
  still p p' here idling knows free = record {
    small = inv.small;
    mask = inv.mask;
    slots_length = inv.slots_length;
    in_order = inv.in_order;
    room = inv.room;
    prod_le = inv.prod_le;
    le_prod = inv.le_prod;
    slots_are = inv.slots_are;
    known = λ j. ground (arith, inv.known j);
    storing = λ e. let (a, at) = inv.storing e in (a, ground arith);
    unique = λ a b q ea eb. ground (arith, inv.unique a b q);
  }

  pub index : (p : ℕ) → Index.physical_index m.buffer.prod_seq p ≡ p % 2 ^ k
  index p = physical_index_lem m.buffer.prod_seq k p inv.mask

  code_of :
      (j : ℕ) (s : Slot)
      → j < 2 ^ k
      → get_elem? m.buffer.slots j ≡ some s
      → s.code ≡ (if ltb j (length m.handed) then 1 else 0)
  code_of j s lt at = let (t, there, code) = inv.slots_are j lt in cc

  -- The slot of a number that is not above `prod_seq` is empty only for the next reservation.
  next_empty :
      (p : ℕ) (s : Slot)
      → p ≤ m.buffer.prod_seq.value
      → slot_at m.buffer p ≡ some s
      → s.code ≡ 0
      → (p ≡ m.buffer.prod_seq.value) × (length m.handed ≡ p) × (p < 2 ^ k)
  next_empty p s le at empty = elim (dec_lt p (2 ^ k)) [
    | yes lt ↦
        let e = index p ∙ mod-eq_of_lt lt in
        let code = code_of p s lt (ap (get_elem? m.buffer.slots) (sym e) ∙ at) in
        ground (arith, inv.prod_le)
    | no past ↦
        let whole : p ≡ 2 ^ k = omega (arith, inv.room, inv.prod_le) in
        let e = index p ∙ ap (λ (n : ℕ). n % 2 ^ k) whole ∙ mod_self (2 ^ k) in
        let code =
          code_of 0 s (one-le-pow k 2 (omega arith)) (ap (get_elem? m.buffer.slots) (sym e) ∙ at) in
        let pos = one-le-pow k 2 (omega arith) in absurd (ground (arith, inv.prod_le, pos))
  ]

  at_index :
      (p : ℕ) (s : Slot)
      → p < 2 ^ k
      → slot_at m.buffer p ≡ some s
      → get_elem? m.buffer.slots p ≡ some s
  at_index p s lt at = ap (get_elem? m.buffer.slots) (sym (index p ∙ mod-eq_of_lt lt)) ∙ at

  -- The slots behind a write to the slot of `p`, with `count` reservations from now on.
  slots_are-set :
      (p count : ℕ) (s : Slot)
      → p < 2 ^ k
      → s.code ≡ (if ltb p count then 1 else 0)
      → ((j : ℕ) → j ≢ p → ltb j count ≡ ltb j (length m.handed))
      → (j : ℕ) → j < 2 ^ k
      → SlotIs count j (with_slot m.buffer p s).slots
  slots_are-set p count s lt code same j ltj =
      let e = index p ∙ mod-eq_of_lt lt in
      subst (λ n. SlotIs count j (set m.buffer.slots n s)) (sym e)
        (elim (ℕ_discrete p j) [
          | yes here ↦ (
            s,
            ap (get_elem? (set m.buffer.slots p s)) (sym here)
                ∙ get_elem?-set_self m.buffer.slots p s (omega (arith, inv.slots_length)),
            code ∙ ap (λ n. if ltb n count then 1 else 0) here,
          )
          | no other ↦
              let (t, there, old) = inv.slots_are j ltj in
              (
                t,
                get_elem?-set_ne m.buffer.slots s other ∙ there,
                old ∙ ap (λ b. if b then 1 else 0) (sym (same j (λ back. other (sym back)))),
              )
        ])

  win-Inv :
      (p : ℕ) (s s' : Slot)
      → pc i ≡ found p
      → slot_at m.buffer p ≡ some s
      → Slot.try_transition s SlotState.empty SlotState.reserved ≡ (true, s')
      → Inv k
          (record { buffer = with_slot m.buffer p s'; handed = m.handed ++ (p ∷ []) })
          (moved_to pc i (taken p))
  win-Inv p s s' here at won =
      let (empty, full) = transition_won s s' won in
      let le : p ≤ m.buffer.prod_seq.value = ground (arith, inv.known i) in
      let (at_prod, count, lt) = next_empty p s le at empty in
      let more : length (m.handed ++ (p ∷ [])) ≡ p + 1 =
        omega (arith, length-append m.handed (p ∷ [])) in
      let grown : suc (length m.handed) ≡ length (m.handed ++ (p ∷ [])) = omega arith in
      record {
        small = inv.small;
        mask = inv.mask;
        slots_length = length-set m.buffer.slots _ s' ∙ inv.slots_length;
        in_order =
            ap (λ l. l ++ (p ∷ [])) inv.in_order
            ∙ ap (λ n. range_from 0 (length m.handed) ++ (n ∷ [])) (omega arith)
            ∙ range_from-snoc 0 (length m.handed)
            ∙ ap (range_from 0) grown;
        room = omega arith;
        prod_le = omega arith;
        le_prod = omega arith;
        slots_are =
            slots_are-set p (length (m.handed ++ (p ∷ []))) s' lt (ground arith)
              (λ j other. ground arith);
        known = λ j. ground (arith, inv.known j);
        storing = λ e. (i, ground arith);
        unique = λ a b q ea eb. ground (arith, inv.unique a b q, inv.known a, inv.known b);
      }

  store_prod-Inv :
      (p : ℕ)
      → pc i ≡ taken p
      → Inv k
          (record m {
            buffer = record m.buffer { prod_seq = Index.store m.buffer.prod_seq (add64 p 1) };
          })
          (moved_to pc i (stored p))
  store_prod-Inv p here =
      let (at_prod, count) : (p ≡ m.buffer.prod_seq.value)
          × (length m.handed ≡ m.buffer.prod_seq.value + 1) =
        ground (arith, inv.known i) in
      let bound : 2 ^ k ≤ 2 ^ 54 = pow-le-pow_right {n = 2} (omega arith) inv.small in
      let next : add64 p 1 ≡ p + 1 = omega (arith, inv.room) in
      record {
        small = inv.small;
        mask = inv.mask;
        slots_length = inv.slots_length;
        in_order = inv.in_order;
        room = inv.room;
        prod_le = omega arith;
        le_prod = omega arith;
        slots_are = inv.slots_are;
        known = λ j. ground (arith, inv.known j, inv.unique i j p, next);
        storing = λ e. absurd (omega arith);
        unique = λ a b q ea eb. ground (arith, inv.unique a b q);
      }

  set_seq-Inv :
      (p : ℕ) (s : Slot)
      → pc i ≡ stored p
      → slot_at m.buffer p ≡ some s
      → Inv k
          (record m { buffer = with_slot m.buffer p (Slot.set_seq s p) })
          (moved_to pc i (granted p))
  set_seq-Inv p s here at =
      let below : p < m.buffer.prod_seq.value = ground (arith, inv.known i) in
      let lt : p < 2 ^ k = omega (arith, inv.prod_le, inv.room) in
      let code = code_of p s lt (at_index p s lt at) in
      record {
        small = inv.small;
        mask = inv.mask;
        slots_length = length-set m.buffer.slots _ (Slot.set_seq s p) ∙ inv.slots_length;
        in_order = inv.in_order;
        room = inv.room;
        prod_le = inv.prod_le;
        le_prod = inv.le_prod;
        slots_are = slots_are-set p (length m.handed) (Slot.set_seq s p) lt code (λ j other. refl);
        known = λ j. ground (arith, inv.known j);
        storing = λ e. let (a, at') = inv.storing e in (a, ground arith);
        unique = λ a b q ea eb. ground (arith, inv.unique a b q);
      }

pub Move-Inv :
    {k : ℕ} {m m' : Shared} {pc : ℕ → Pc} {p p' : Pc} (i : ℕ)
    → Inv k m pc
    → pc i ≡ p
    → Move m p m' p'
    → Inv k m' (moved_to pc i p')
Move-Inv i inv here load_prod = still inv i idle _ here refl (omega arith) refl
Move-Inv i inv here (find_empty {p} at empty) =
    still inv i (loaded p) (found p) here refl (ground (arith, inv.known i)) refl
Move-Inv i inv here (find_busy {p} at busy) = still inv i (loaded p) idle here refl tt refl
Move-Inv i inv here (win {p} {s} {s'} at won) = win-Inv inv i p s s' here at won
Move-Inv i inv here (lose {p} at lost) = still inv i (found p) idle here refl tt refl
Move-Inv i inv here (store_prod {p}) = store_prod-Inv inv i p here
Move-Inv i inv here (set_seq {p} {s} at) = set_seq-Inv inv i p s here at
Move-Inv i inv here (finish {p}) = still inv i (granted p) idle here refl tt refl
