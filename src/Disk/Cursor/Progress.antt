-- ===== src/Disk/Cursor/Progress.antt =====
-- `Cursor::next`: when it returns, and when it never does.
use ring_buffer.Prelude.{
  ℕ, zero, suc, ◌+◌, ◌*◌, ◌≤◌, ◌<◌, ◌^◌, ◌≡◌, refl, ap, Option, none, some, true, false, arith,
  Bool-cases, inl, inr, le→leb, not_le→leb, and-false, if-of_true, if-of_false, ◌∙◌,
}
use ring_buffer.Platform.{Platform}
use ring_buffer.Memory.Record.{Record}
use ring_buffer.Disk.Outcome.{Outcome, ok, err, panic, undefined, unfinished, Returns}
use ring_buffer.Disk.Persistent.{PersistentRingBuffer, read_at}
use ring_buffer.Disk.Persistent.Valid.{IsValid}
use ring_buffer.Disk.Persistent.Read.{ReadBounds, read_at-bounds}
use ring_buffer.Disk.Cursor.{Cursor, past_gap, after_read, next}

module _ ⦃p : Platform⦄ where
  -- Past the data section there is no record.
  read_at-past : (b : PersistentRingBuffer) (pos : ℕ) → b.size ≤ pos → read_at b pos ≡ ok none
  unfolding read_at
  read_at-past b pos h = rw (le→leb b.size pos h) refl

  offset-past_gap :
      (b : PersistentRingBuffer) (c : Cursor)
      → c.position.offset + 24 < 2 ^ 64
      → (past_gap b c).position.offset ≡ c.position.offset + 24
  unfolding past_gap
  offset-past_gap b c h = omega arith

  wrap_count-past_gap :
      (b : PersistentRingBuffer) (c : Cursor)
      → (past_gap b c).position.wrap_count ≡ c.position.wrap_count
  unfolding past_gap
  wrap_count-past_gap b c = refl

  gap-at_end :
      (b : PersistentRingBuffer) (c : Cursor)
      → c.position.wrap_count < b.control.wrap_count
      → (past_gap b c).at_end ≡ false
  unfolding past_gap
  gap-at_end b c old =
      rw (not_le→leb b.control.wrap_count c.position.wrap_count (omega arith), and-false) refl

  pub next-done :
      (fuel : ℕ) (b : PersistentRingBuffer) (c : Cursor)
      → c.at_end ≡ true
      → next (suc fuel) b c ≡ (ok none, c)
  unfolding next
  next-done fuel b c e = if-of_true (ok none, c) _ e

  pub next-going :
      (fuel : ℕ) (b : PersistentRingBuffer) (c : Cursor)
      → c.at_end ≡ false
      → next (suc fuel) b c ≡ after_read (next fuel b) b c (read_at b c.position.offset)
  unfolding next
  next-going fuel b c e = if-of_false (ok none, c) _ e

  next-gap :
      (fuel : ℕ) (b : PersistentRingBuffer) (c : Cursor)
      → c.at_end ≡ false
      → read_at b c.position.offset ≡ ok none
      → (past_gap b c).at_end ≡ false
      → next (suc fuel) b c ≡ next fuel b (past_gap b c)
  unfolding after_read
  next-gap fuel b c going nothing more =
      next-going fuel b c going
      ∙ ap (after_read (next fuel b) b c) nothing
      ∙ if-of_false (ok none, past_gap b c) (next fuel b (past_gap b c)) more

  -- `next` of a cursor of an earlier lap that is not marked as at its end and stands at or behind
  -- the end of the data section does not return, with any fuel that does not bring its offset to
  -- 2^64.
  pub next-stale :
      (fuel : ℕ) (b : PersistentRingBuffer) (c : Cursor)
      → c.at_end ≡ false
      → c.position.wrap_count < b.control.wrap_count
      → b.size ≤ c.position.offset
      → c.position.offset + 24 * fuel < 2 ^ 64
      → (next fuel b c).0 ≡ unfinished
  unfolding next
  next-stale zero b c going old past room = refl
  next-stale (suc fuel) b c going old past room =
      let offset = offset-past_gap b c (omega arith) in
      let more = gap-at_end b c old in
      rw (next-gap fuel b c going (read_at-past b _ past) more) (
        next-stale fuel b (past_gap b c) more (rw (wrap_count-past_gap b c) old)
          (omega (arith, offset)) (omega (arith, offset)))

  -- A gap that is not the end stands below the write position.
  gap-below :
      (b : PersistentRingBuffer) (c : Cursor)
      → b.control.wrap_count ≤ c.position.wrap_count
      → (past_gap b c).at_end ≡ false
      → (past_gap b c).position.offset < b.control.write_pos
  unfolding past_gap
  gap-below b c lap more = ground arith

  after_read-Returns :
      (fuel : ℕ) (b : PersistentRingBuffer) (c : Cursor)
      (again : Cursor → Outcome (Option Record) × Cursor)
      → IsValid b
      → b.control.wrap_count ≤ c.position.wrap_count
      → c.position.offset < 2 ^ 63
      → b.control.write_pos < c.position.offset + suc fuel
      → ((c' : Cursor)
          → b.control.wrap_count ≤ c'.position.wrap_count
          → c'.position.offset < 2 ^ 63
          → b.control.write_pos < c'.position.offset + fuel
          → 0 < fuel
          → Returns (again c').0)
      → (o : Outcome (Option (Record × ℕ))) → ReadBounds b c.position.offset o
      → Returns (after_read again b c o).0
  unfolding after_read
  after_read-Returns fuel b c again v lap small enough rest (ok none) h =
      elim (Bool-cases (past_gap b c).at_end) [
        | inl e ↦ rw (if-of_true (ok none, past_gap b c) (again (past_gap b c)) e) tt
        | inr e ↦
            let below = gap-below b c lap e in
            let offset = offset-past_gap b c (omega arith) in
            let same = wrap_count-past_gap b c in
            rw (if-of_false (ok none, past_gap b c) (again (past_gap b c)) e) (
              rest (past_gap b c) (omega (arith, same)) (omega (arith, below, v))
                (omega (arith, offset)) (omega (arith, offset, below)))
      ]
  after_read-Returns fuel b c again v lap small enough rest (ok (some (r, n))) h = tt
  after_read-Returns fuel b c again v lap small enough rest (err e) h = tt
  after_read-Returns fuel b c again v lap small enough rest panic h = h
  after_read-Returns fuel b c again v lap small enough rest undefined h = h
  after_read-Returns fuel b c again v lap small enough rest unfinished h = h

  -- On a valid buffer, whatever bytes its data section has, `next` of a cursor that is not of an
  -- earlier lap, at an offset below 2^63, returns a result or an error, with positive fuel that
  -- reaches from the offset beyond the write position.
  pub next-Returns :
      (fuel : ℕ) (b : PersistentRingBuffer) (c : Cursor)
      → IsValid b
      → b.control.wrap_count ≤ c.position.wrap_count
      → c.position.offset < 2 ^ 63
      → b.control.write_pos < c.position.offset + fuel
      → 0 < fuel
      → Returns (next fuel b c).0
  next-Returns zero b c v lap small enough some_fuel = absurd (omega arith)
  next-Returns (suc fuel) b c v lap small enough some_fuel = elim (Bool-cases c.at_end) [
    | inl e ↦ rw (next-done fuel b c e) tt
    | inr e ↦ rw (next-going fuel b c e) (
        after_read-Returns fuel b c (next fuel b) v lap small enough
          (λ c' lap' small' enough' some_fuel'.
            next-Returns fuel b c' v lap' small' enough' some_fuel')
          (read_at b c.position.offset) (read_at-bounds b c.position.offset v))
  ]
