-- ===== src/Disk/Cursor/Lapped.antt =====
-- A cursor of the lap before the current one, while the writes have not reached it.
use ring_buffer.Prelude.{
  ℕ, zero, suc, ◌+◌, ◌*◌, ◌^◌, ◌≤◌, ◌<◌, ◌≡◌, ◌≢◌, refl, ap, ◌∙◌, subst, List, [], ◌∷◌, ◌++◌, map,
  take, append-nil, append_assoc, Option, false, arith, length,
}
use ring_buffer.Platform.{Platform, add64}
use ring_buffer.Memory.Record.{Record}
use ring_buffer.Disk.Outcome.{ok}
use ring_buffer.Disk.Persistent.{PersistentRingBuffer}
use ring_buffer.Disk.Persistent.Valid.{IsValid}
use ring_buffer.Disk.Persistent.Write.{frame_size}
use ring_buffer.Disk.Persistent.Frames.{Frames, Frames-le}
use ring_buffer.Disk.Persistent.Read.{stored}
use ring_buffer.Disk.Persistent.Wrap.{write_all}
use ring_buffer.Disk.Persistent.Passed.{frames_size}
use ring_buffer.Disk.Persistent.Above.{wrap-Keeps}
use ring_buffer.Disk.Cursor.{
  Position, Cursor, is_end, past_record, batch_loop, batch_round, read_batch,
}
use ring_buffer.Disk.Cursor.Batch.{AtFrames, next-frame, read_batch-fits}

module _ ⦃p : Platform⦄ where
  -- The records of an earlier lap, from the cursor up to where that lap ended.
  record Behind (b : PersistentRingBuffer) (c : Cursor) (rs : List Record) : Type 0 where
    valid : IsValid b
    other_lap : c.position.wrap_count ≢ b.control.wrap_count
    going : c.at_end ≡ false
    end : ℕ
    end_le : end ≤ b.size
    ahead : Frames b.mmap c.position.offset rs end

  is_end-other_lap :
      (b : PersistentRingBuffer) (pos : Position)
      → pos.wrap_count ≢ b.control.wrap_count
      → is_end b pos ≡ false
  unfolding is_end
  is_end-other_lap b pos other = ground (arith, other)

  past_record-Behind :
      (b : PersistentRingBuffer) (c : Cursor) (r : Record) (rs : List Record)
      → Behind b c (r ∷ rs)
      → Behind b (past_record b c (frame_size r)) rs
  unfolding past_record
  past_record-Behind b c r rs h =
      let before = Frames-le b.mmap (c.position.offset + frame_size r) rs h.end h.ahead.2 in
      let step : c.position.offset + frame_size r ≡ add64 c.position.offset (frame_size r) =
        omega (arith, before, h.end_le, h.valid.size_le) in
      record {
        valid = h.valid;
        other_lap = h.other_lap;
        going = is_end-other_lap b _ h.other_lap;
        end = h.end;
        end_le = h.end_le;
        ahead = subst (λ n. Frames b.mmap n rs h.end) step h.ahead.2;
      }

  batch_loop-Behind :
      (fuel n : ℕ) (b : PersistentRingBuffer) (out : List Record) (c : Cursor) (rs : List Record)
      → Behind b c rs
      → n ≤ length rs
      → (batch_loop (suc fuel) b n out c).0 ≡ ok (out ++ map stored (take n rs))
  unfolding batch_loop batch_round
  batch_loop-Behind fuel zero b out c rs h enough = rw append-nil refl
  batch_loop-Behind fuel (suc n) b out c [] h enough = absurd (omega arith)
  batch_loop-Behind fuel (suc n) b out c (r ∷ rs) h enough =
      let before = Frames-le b.mmap (c.position.offset + frame_size r) rs h.end h.ahead.2 in
      let read =
        next-frame fuel b c r h.valid h.going h.ahead.0 h.ahead.1
          (omega (arith, before, h.end_le)) in
      rw read (
        batch_loop-Behind fuel n b (out ++ (stored r ∷ [])) (past_record b c (frame_size r)) rs
          (past_record-Behind b c r rs h) (omega arith)
        ∙ rw append_assoc refl)

  -- A cursor of the current lap of a valid buffer, not marked as at its end, has the records `rs`
  -- between it and the write position. After a write that wraps, and further ones, whose frames
  -- together end at or below the cursor, `read_batch` of at most as many records as `rs` has,
  -- fewer than 2^63 bytes, returns the first of them, though they are of the lap before: a reader
  -- that the writes have not reached loses nothing that it had ahead.
  pub read_batch-lapped :
      (fuel n : ℕ) (b : PersistentRingBuffer) (c : Cursor) (rs : List Record) (r : Record)
      (io : Option ℕ) (ws : List (Record × Option ℕ))
      → AtFrames b c rs
      → c.at_end ≡ false
      → b.size < b.control.write_pos + frame_size r
      → frame_size r + frames_size ws ≤ c.position.offset
      → n ≤ length rs
      → n * 48 < 2 ^ 63
      → (read_batch (suc fuel) (write_all b ((r, io) ∷ ws)) c n).0 ≡ ok (map stored (take n rs))
  read_batch-lapped fuel n b c rs r io ws h going over below enough fits =
      let before = Frames-le b.mmap c.position.offset rs b.control.write_pos h.ahead in
      let kept =
        wrap-Keeps b r io ws c.position.offset h.valid (omega (arith, before, h.valid)) over
          below in
      let b' = write_all b ((r, io) ∷ ws) in
      ap (λ o. o.0) (read_batch-fits (suc fuel) b' c n fits)
      ∙ batch_loop-Behind fuel n b' [] c rs
          (record {
            valid = kept.valid;
            other_lap =
                λ same. absurd (omega (arith, same, h.same_lap, kept.wrap_count_eq, h.valid.block));
            going = going;
            end = b.control.write_pos;
            end_le = omega (arith, kept.size_eq, h.valid.write_pos_le);
            ahead = kept.frames rs b.control.write_pos h.ahead;
          })
          enough
