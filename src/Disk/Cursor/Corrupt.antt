-- ===== src/Disk/Cursor/Corrupt.antt =====
-- A cursor with a record ahead whose checksum does not match: what `next` and `read_batch` return
-- then, and where they leave the cursor.
use ring_buffer.Prelude.{
  ℕ, zero, suc, ◌+◌, ◌*◌, ◌^◌, ◌<◌, ◌≡◌, refl, ap, ◌∙◌, subst, List, [], ◌∷◌, ◌++◌, false, arith,
  length,
}
use ring_buffer.Platform.{Platform, add64}
use ring_buffer.Memory.Record.{Record}
use ring_buffer.Disk.Outcome.{PersistentError, err}
use ring_buffer.Disk.Persistent.{PersistentRingBuffer, read_at}
use ring_buffer.Disk.Persistent.Valid.{IsValid}
use ring_buffer.Disk.Persistent.Write.{frame_size}
use ring_buffer.Disk.Persistent.Frames.{Frames, Frames-le}
use ring_buffer.Disk.Persistent.Read.{stored}
use ring_buffer.Disk.Cursor.{
  Cursor, is_end, past_record, after_read, next, batch_round, batch_loop, read_batch,
}
use ring_buffer.Disk.Cursor.Progress.{next-going}
use ring_buffer.Disk.Cursor.Batch.{next-frame, read_batch-fits}

module _ ⦃p : Platform⦄ where
  -- The records from the cursor to a position below the write position, where `read_at` fails.
  pub record AtError (b : PersistentRingBuffer) (c : Cursor) (rs : List Record) (pos : ℕ)
      (e : PersistentError) : Type 0 where
    pub valid : IsValid b
    pub going : c.at_end ≡ false
    pub ahead : Frames b.mmap c.position.offset rs pos
    pub inside : pos < b.control.write_pos
    pub broken : read_at b pos ≡ err e

  pub next-AtError :
      (fuel : ℕ) (b : PersistentRingBuffer) (c : Cursor) (pos : ℕ) (e : PersistentError)
      → AtError b c [] pos e
      → next (suc fuel) b c ≡ (err e, c)
  unfolding after_read
  next-AtError fuel b c pos e h =
      next-going fuel b c h.going
      ∙ ap (after_read (next fuel b) b c) (ap (read_at b) h.ahead ∙ h.broken)

  past_record-AtError :
      (b : PersistentRingBuffer) (c : Cursor) (r : Record) (rs : List Record) (pos : ℕ)
      (e : PersistentError)
      → AtError b c (r ∷ rs) pos e
      → AtError b (past_record b c (frame_size r)) rs pos e
  unfolding past_record is_end
  past_record-AtError b c r rs pos e h =
      let before = Frames-le b.mmap (c.position.offset + frame_size r) rs pos h.ahead.2 in
      let bound = h.inside in
      let step : c.position.offset + frame_size r ≡ add64 c.position.offset (frame_size r) =
        omega (arith, before, bound, h.valid) in
      record {
        valid = h.valid;
        going = ground (arith, step, before, bound);
        ahead = subst (λ n. Frames b.mmap n rs pos) step h.ahead.2;
        inside = h.inside;
        broken = h.broken;
      }

  pub batch_loop-AtError :
      (fuel : ℕ) (b : PersistentRingBuffer) (n : ℕ) (out : List Record) (c : Cursor)
      (rs : List Record) (pos : ℕ) (e : PersistentError)
      → AtError b c rs pos e
      → length rs < n
      → (c' : Cursor) × (batch_loop (suc fuel) b n out c ≡ (err e, c')) × AtError b c' [] pos e
  unfolding batch_loop batch_round
  batch_loop-AtError fuel b zero out c rs pos e h more = absurd (omega arith)
  batch_loop-AtError fuel b (suc n) out c [] pos e h more =
      (c, rw (next-AtError fuel b c pos e h) refl, h)
  batch_loop-AtError fuel b (suc n) out c (r ∷ rs) pos e h more =
      let (c', ran, h') =
        batch_loop-AtError fuel b n (out ++ (stored r ∷ [])) (past_record b c (frame_size r)) rs pos
          e (past_record-AtError b c r rs pos e h) (omega (arith, more)) in
      let first = next-frame fuel b c r h.valid h.going h.ahead.0 h.ahead.1 (
        omega (
          arith,
          h.inside,
          Frames-le b.mmap (c.position.offset + frame_size r) rs pos h.ahead.2,
        )) in
      (c', rw first ran, h')

  batch_loop-stuck :
      (fuel : ℕ) (b : PersistentRingBuffer) (n : ℕ) (c : Cursor) (pos : ℕ) (e : PersistentError)
      → AtError b c [] pos e
      → 0 < n
      → batch_loop (suc fuel) b n [] c ≡ (err e, c)
  unfolding batch_loop batch_round
  batch_loop-stuck fuel b zero c pos e h some_wanted = absurd (omega arith)
  batch_loop-stuck fuel b (suc n) c pos e h some_wanted = rw (next-AtError fuel b c pos e h) refl

  -- On a valid buffer, with the records `rs` between a cursor that is not at its end and a
  -- position below the write position at which `read_at` fails with an error, `read_batch` of more
  -- than these records, which are fewer than 2^63 bytes, fails with that error: no record of `rs`
  -- is returned, the cursor is left at that position, and every later `read_batch` of that cursor,
  -- of a positive count below 2^63 bytes, fails in the same way and leaves it there.
  pub read_batch-corrupt :
      (fuel : ℕ) (b : PersistentRingBuffer) (c : Cursor) (n : ℕ) (rs : List Record) (pos : ℕ)
      (e : PersistentError)
      → n * 48 < 2 ^ 63
      → AtError b c rs pos e
      → length rs < n
      → (c' : Cursor) × (read_batch (suc fuel) b c n ≡ (err e, c'))
        × (c'.position.offset ≡ pos)
        × ((m : ℕ) → 0 < m → m * 48 < 2 ^ 63 → read_batch (suc fuel) b c' m ≡ (err e, c'))
  read_batch-corrupt fuel b c n rs pos e fits h more =
      let (c', ran, h') = batch_loop-AtError fuel b n [] c rs pos e h more in
      (
        c',
        read_batch-fits (suc fuel) b c n fits ∙ ran,
        h'.ahead,
        λ m some_wanted fits'.
            read_batch-fits (suc fuel) b c' m fits'
            ∙ batch_loop-stuck fuel b m c' pos e h' some_wanted,
      )
