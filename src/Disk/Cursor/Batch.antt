-- ===== src/Disk/Cursor/Batch.antt =====
-- A cursor of the current lap that stands at a record: what `next` and `read_batch` return.
use ring_buffer.Prelude.{
  ℕ, zero, suc, ◌+◌, ◌≡◌, refl, ap, ◌∙◌, subst, List, [], ◌∷◌, ◌++◌, map, append-nil, append_assoc,
  ◌*◌, ◌^◌, ◌≤◌, ◌<◌, if-of_true, take, drop, none, some, Bool, true, false, arith,
}
use ring_buffer.Platform.{Platform, add64, fits_vec_lem}
use ring_buffer.Memory.Record.{Record}
use ring_buffer.Disk.Outcome.{ok}
use ring_buffer.Disk.Persistent.{PersistentRingBuffer}
use ring_buffer.Disk.Persistent.Valid.{IsValid}
use ring_buffer.Disk.Persistent.Write.{frame_size}
use ring_buffer.Disk.Persistent.Frames.{IsStorable, FrameAt, Frames, Frames-le}
use ring_buffer.Disk.Persistent.Read.{stored, read_at-frame}
use ring_buffer.Disk.Queue.Refine.{Holds}
use ring_buffer.Disk.Cursor.{
  Position, Cursor, new, is_end, past_record, after_read, next, batch_round, batch_loop, read_batch,
}
use ring_buffer.Disk.Cursor.Progress.{next-done, next-going}

abbrev pub is_nil {ℓ} : {A : Type ℓ} → List A → Bool
is_nil [] = true
is_nil (x ∷ xs) = false

module _ ⦃p : Platform⦄ where
  -- The records from the cursor to the write position.
  pub record AtFrames (b : PersistentRingBuffer) (c : Cursor) (rs : List Record) : Type 0 where
    pub valid : IsValid b
    pub same_lap : c.position.wrap_count ≡ b.control.wrap_count
    pub ahead : Frames b.mmap c.position.offset rs b.control.write_pos
    pub end : c.at_end ≡ is_nil rs

  -- On the current lap the test for the end decides whether records are left.
  pub is_end-Frames :
      (b : PersistentRingBuffer) (pos : Position) (rs : List Record)
      → pos.wrap_count ≡ b.control.wrap_count
      → Frames b.mmap pos.offset rs b.control.write_pos
      → is_end b pos ≡ is_nil rs
  unfolding is_end
  is_end-Frames b pos [] same f = ground arith
  is_end-Frames b pos (r ∷ rs) same f =
      let before = Frames-le b.mmap (pos.offset + frame_size r) rs b.control.write_pos f.2 in
      ground (arith, before)

  -- A new cursor at the buffer's own read position has all unread records ahead.
  pub new-AtFrames :
      (b : PersistentRingBuffer) (q : List Record) → Holds b q → AtFrames b (new b none) q
  unfolding new
  new-AtFrames b q h = record {
    valid = h.valid;
    same_lap = refl;
    ahead = h.unread;
    end = is_end-Frames b _ q refl h.unread;
  }

  pub past_record-Frames :
      (b : PersistentRingBuffer) (c : Cursor) (r : Record) (rs : List Record)
      → IsValid b
      → c.position.wrap_count ≡ b.control.wrap_count
      → Frames b.mmap c.position.offset (r ∷ rs) b.control.write_pos
      → AtFrames b (past_record b c (frame_size r)) rs
  unfolding past_record
  past_record-Frames b c r rs v same f =
      let before = Frames-le b.mmap (c.position.offset + frame_size r) rs b.control.write_pos f.2 in
      let step : c.position.offset + frame_size r ≡ add64 c.position.offset (frame_size r) =
        omega (arith, before, v) in
      let ahead = subst (λ n. Frames b.mmap n rs b.control.write_pos) step f.2 in
      record { valid = v; same_lap = same; ahead = ahead; end = is_end-Frames b _ rs same ahead }

  -- A record that stands at the cursor.
  pub next-frame :
      (fuel : ℕ) (b : PersistentRingBuffer) (c : Cursor) (r : Record)
      → IsValid b
      → c.at_end ≡ false
      → IsStorable r
      → FrameAt b.mmap c.position.offset r
      → c.position.offset + frame_size r ≤ b.size
      → next (suc fuel) b c ≡ (ok (some (stored r)), past_record b c (frame_size r))
  unfolding after_read
  next-frame fuel b c r v going storable at below =
      next-going fuel b c going
      ∙ ap (after_read (next fuel b) b c) (read_at-frame b c.position.offset r v below storable at)

  next-record :
      (fuel : ℕ) (b : PersistentRingBuffer) (c : Cursor) (r : Record) (rs : List Record)
      → AtFrames b c (r ∷ rs)
      → next (suc fuel) b c ≡ (ok (some (stored r)), past_record b c (frame_size r))
  next-record fuel b c r rs h = next-frame fuel b c r h.valid h.end h.ahead.0 h.ahead.1 (
      omega (
        arith,
        Frames-le b.mmap (c.position.offset + frame_size r) rs b.control.write_pos h.ahead.2,
        h.valid,
      ))

  -- A count whose records fit a vector.
  pub read_batch-fits :
      (fuel : ℕ) (b : PersistentRingBuffer) (c : Cursor) (n : ℕ)
      → n * 48 < 2 ^ 63
      → read_batch fuel b c n ≡ batch_loop fuel b n [] c
  unfolding read_batch
  read_batch-fits fuel b c n fits = if-of_true _ _ (fits_vec_lem n 48 fits)

  batch_loop-frames :
      (fuel : ℕ) (b : PersistentRingBuffer) (n : ℕ) (out : List Record) (c : Cursor)
      (rs : List Record)
      → AtFrames b c rs
      → ((batch_loop (suc fuel) b n out c).0 ≡ ok (out ++ map stored (take n rs)))
        × AtFrames b (batch_loop (suc fuel) b n out c).1 (drop n rs)
  unfolding batch_loop batch_round
  batch_loop-frames fuel b zero out c rs h = (rw append-nil refl, h)
  batch_loop-frames fuel b (suc n) out c [] h =
      rw (next-done fuel b c h.end) (rw append-nil refl, h)
  batch_loop-frames fuel b (suc n) out c (r ∷ rs) h =
      let rest =
        batch_loop-frames fuel b n (out ++ (stored r ∷ [])) (past_record b c (frame_size r)) rs
          (past_record-Frames b c r rs h.valid h.same_lap h.ahead) in
      rw (next-record fuel b c r rs h) (rest.0 ∙ rw append_assoc refl, rest.1)

  -- On a valid buffer, with the records `rs` between a cursor of the current lap and the write
  -- position, `read_batch` of `n` records, which are fewer than 2^63 bytes, returns the first `n`
  -- of them, or all if there are fewer, in order and as they are stored, and leaves the cursor
  -- before the others; `next` never calls itself there.
  pub read_batch-frames :
      (fuel : ℕ) (b : PersistentRingBuffer) (c : Cursor) (n : ℕ) (rs : List Record)
      → n * 48 < 2 ^ 63
      → AtFrames b c rs
      → ((read_batch (suc fuel) b c n).0 ≡ ok (map stored (take n rs)))
        × AtFrames b (read_batch (suc fuel) b c n).1 (drop n rs)
  read_batch-frames fuel b c n rs fits h =
      rw (read_batch-fits (suc fuel) b c n fits) (batch_loop-frames fuel b n [] c rs h)
