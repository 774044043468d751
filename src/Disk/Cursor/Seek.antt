-- ===== src/Disk/Cursor/Seek.antt =====
-- `seek_to`, `seek_to_end` and `commit`.
use ring_buffer.Prelude.{
  ℕ, zero, suc, ◌≤◌, ◌<◌, ◌≡◌, ◌*◌, ◌^◌, ◌≢◌, refl, ◌∙◌, sym, List, [], ◌∷◌, map, take, Option,
  none, true, false, ◌&&◌, arith, ltb, leb, ◌==◌, if-of_true,
}
use ring_buffer.Platform.{Platform}
use ring_buffer.Memory.Record.{Record}
use ring_buffer.Disk.Outcome.{Outcome, ok, io_result, Returns}
use ring_buffer.Disk.Persistent.{PersistentRingBuffer, reset_read_position}
use ring_buffer.Disk.Persistent.Valid.{IsValid}
use ring_buffer.Disk.Persistent.Read.{stored}
use ring_buffer.Disk.Persistent.Frames.{Frames, Frames-le}
use ring_buffer.Disk.Persistent.ReadAll.{moved}
use ring_buffer.Disk.Persistent.Wrap.{HoldsLap, Laps}
use ring_buffer.Disk.Queue.Refine.{Holds, moved-Holds, reset_read_position_lem}
use ring_buffer.Disk.Cursor.{Position, Cursor, new, is_end, next, seek_to, read_batch, commit}
use ring_buffer.Disk.Cursor.Progress.{next-Returns}
use ring_buffer.Disk.Cursor.Batch.{is_nil, AtFrames, new-AtFrames, is_end-Frames, read_batch-frames}

is_nil-cons {ℓ} : {A : Type ℓ} (xs : List A) → xs ≢ [] → is_nil xs ≡ false
is_nil-cons [] h = absurd (h refl)
is_nil-cons (x ∷ xs) h = refl

module _ ⦃p : Platform⦄ where
  -- Wherever `seek_to` sends a cursor, it stands on the current lap, at an offset not above the
  -- write position.
  pub seek_to-current :
      (b : PersistentRingBuffer) (c : Cursor) (pos : Position)
      → ((seek_to b c pos).position.wrap_count ≡ b.control.wrap_count)
        × ((seek_to b c pos).position.offset ≤ b.control.write_pos)
  unfolding seek_to
  seek_to-current b c pos = ground arith

  -- On a valid buffer, whatever bytes its data section has, `next` right after `seek_to` to any
  -- position returns a result or an error, with fuel above the write position.
  pub next-seek_to :
      (b : PersistentRingBuffer) (c : Cursor) (pos : Position) (fuel : ℕ)
      → IsValid b
      → b.control.write_pos < fuel
      → Returns (next fuel b (seek_to b c pos)).0
  next-seek_to b c pos fuel v enough =
      next-Returns fuel b (seek_to b c pos) v (omega (arith, seek_to-current b c pos))
        (omega (arith, seek_to-current b c pos, v)) (omega arith) (omega arith)

  -- A position of an earlier lap sends the cursor to the start of the current one.
  seek_to-old :
      (b : PersistentRingBuffer) (c : Cursor) (pos : Position)
      → pos.wrap_count < b.control.wrap_count
      → seek_to b c pos ≡ (record {
        position = record { offset = 0; wrap_count = b.control.wrap_count };
        at_end = false;
      })
  unfolding seek_to
  seek_to-old b c pos old = ground arith

  -- On a valid buffer that holds a lap of records, at least one, a cursor that seeks to a position
  -- of an earlier lap goes on with the current one from its start: `read_batch` of `n` records,
  -- which are fewer than 2^63 bytes, returns the first `n` of the lap, or all if there are fewer.
  pub read_batch-after_wrap :
      (fuel : ℕ) (b : PersistentRingBuffer) (c : Cursor) (pos : Position) (n : ℕ) (l : Laps)
      → n * 48 < 2 ^ 63
      → HoldsLap b l
      → l.1 ≢ []
      → pos.wrap_count < b.control.wrap_count
      → (read_batch (suc fuel) b (seek_to b c pos) n).0 ≡ ok (map stored (take n l.1))
  read_batch-after_wrap fuel b c pos n l fits h some_left old =
      rw (seek_to-old b c pos old)
        (read_batch-frames fuel b _ n l.1 fits (record {
          valid = h.valid;
          same_lap = refl;
          ahead = h.lap;
          end = sym (is_nil-cons l.1 some_left);
        })).0

  -- `commit` of a position between the read and the write position moves the read position to the
  -- write position, not to the cursor.
  pub commit_lem :
      (b : PersistentRingBuffer) (c : Cursor) (io : Option ℕ)
      → IsValid b
      → c.position.wrap_count ≡ b.control.wrap_count
      → b.control.read_pos < c.position.offset
      → c.position.offset ≤ b.control.write_pos
      → commit b c io ≡ (io_result io, moved b b.control.write_pos)
  unfolding commit
  commit_lem b c io v same ahead below =
      let guard : ((c.position.wrap_count == b.control.wrap_count)
            && (ltb b.control.read_pos c.position.offset
                && leb c.position.offset b.control.write_pos))
          ≡ true =
        ground arith in
      if-of_true (reset_read_position b io) (ok tt, b) guard ∙ reset_read_position_lem b io v

  -- After `commit` of a cursor of the current lap, on a valid buffer with unread records, that
  -- stands behind the read position and not behind the write position, `read_batch` of a new
  -- cursor at the buffer's read position, of a count of records below 2^63 bytes, finds no record:
  -- those that the cursor had not reached are skipped too.
  pub read_batch-commit :
      (b : PersistentRingBuffer) (c : Cursor) (io : Option ℕ) (q : List Record) (fuel n : ℕ)
      → n * 48 < 2 ^ 63
      → Holds b q
      → c.position.wrap_count ≡ b.control.wrap_count
      → b.control.read_pos < c.position.offset
      → c.position.offset ≤ b.control.write_pos
      → let after = (commit b c io).1 in (read_batch (suc fuel) after (new after none) n).0 ≡ ok []
  read_batch-commit b c io q fuel n fits h same ahead below =
      let after = moved b b.control.write_pos in
      rw (commit_lem b c io h.valid same ahead below) (
        (read_batch-frames fuel after (new after none) n [] fits
          (new-AtFrames after [] (moved-Holds b q h))).0
        ∙ take_nil n)
    where
      take_nil : (n : ℕ) → ◌≡◌ {A = Outcome (List Record)} (ok (map stored (take n []))) (ok [])
      take_nil zero = refl
      take_nil (suc n) = refl

  -- A cursor of the current lap that seeks to its own position.
  seek_to-here :
      (b : PersistentRingBuffer) (c : Cursor)
      → c.position.wrap_count ≡ b.control.wrap_count
      → c.position.offset ≤ b.control.write_pos
      → seek_to b c c.position ≡ record { position = c.position; at_end = is_end b c.position }
  unfolding seek_to is_end
  seek_to-here b c same le = ground (arith, same, le)

  pub seek_to-AtFrames :
      (b : PersistentRingBuffer) (c : Cursor) (rs : List Record)
      → IsValid b
      → c.position.wrap_count ≡ b.control.wrap_count
      → Frames b.mmap c.position.offset rs b.control.write_pos
      → AtFrames b (seek_to b c c.position) rs
  seek_to-AtFrames b c rs v same f =
      rw (seek_to-here b c same (Frames-le b.mmap c.position.offset rs b.control.write_pos f))
        (record {
          valid = v;
          same_lap = same;
          ahead = f;
          end = is_end-Frames b c.position rs same f;
        })
