-- ===== src/Disk/Cursor/Tail.antt =====
-- A cursor over a buffer that is written to.
use ring_buffer.Prelude.{
  ℕ, zero, suc, ◌+◌, ◌*◌, ◌^◌, ◌≤◌, ◌<◌, ◌≡◌, refl, ap, ◌∙◌, sym, subst, List, [], ◌∷◌, ◌++◌, map,
  take, Option, true, false, arith, if◌then◌else◌,
}
use ring_buffer.Platform.{Platform}
use ring_buffer.Memory.Record.{Record}
use ring_buffer.Disk.Outcome.{ok}
use ring_buffer.Disk.Persistent.{PersistentRingBuffer, write}
use ring_buffer.Disk.Persistent.Valid.{IsValid}
use ring_buffer.Disk.Persistent.Write.{frame_size, after_write, after_write-IsValid, write_lem}
use ring_buffer.Disk.Persistent.Frames.{IsStorable, Frames, Frames-le}
use ring_buffer.Disk.Persistent.Lap.{Frames-stay, write_pos-stay, wrap_count-stay}
use ring_buffer.Disk.Persistent.Read.{stored}
use ring_buffer.Disk.Cursor.{Position, Cursor, batch_loop, batch_round, seek_to, read_batch}
use ring_buffer.Disk.Cursor.Progress.{next-done}
use ring_buffer.Disk.Cursor.Batch.{is_nil, AtFrames, read_batch-fits, read_batch-frames}

is_nil-snoc {ℓ} : {A : Type ℓ} (xs : List A) (x : A) → is_nil (xs ++ (x ∷ [])) ≡ false
is_nil-snoc [] x = refl
is_nil-snoc (y ∷ xs) x = refl

module _ ⦃p : Platform⦄ where
  -- A write that does not wrap puts its record behind those ahead of a cursor that stands at an
  -- offset and knows that it is not at its end.
  after_write-AtFrames :
      (b : PersistentRingBuffer) (pos : Position) (rs : List Record) (r : Record)
      → IsValid b
      → pos.wrap_count ≡ b.control.wrap_count
      → Frames b.mmap pos.offset rs b.control.write_pos
      → IsStorable r
      → b.control.write_pos + frame_size r ≤ b.size
      → AtFrames (after_write b r) (record { position = pos; at_end = false }) (rs ++ (r ∷ []))
  after_write-AtFrames b pos rs r v same ahead s fits = record {
    valid = after_write-IsValid b r v (omega (arith, fits));
    same_lap = same ∙ sym (wrap_count-stay b r v fits);
    ahead =
        subst (Frames (after_write b r).mmap pos.offset (rs ++ (r ∷ [])))
          (sym (write_pos-stay b r v fits)) (Frames-stay b r pos.offset rs v s fits ahead);
    end = sym (is_nil-snoc rs r);
  }

  -- A position of the current lap below the write position.
  seek_to-below :
      (b : PersistentRingBuffer) (c : Cursor) (pos : Position)
      → pos.wrap_count ≡ b.control.wrap_count
      → pos.offset < b.control.write_pos
      → seek_to b c pos ≡ record { position = pos; at_end = false }
  unfolding seek_to
  seek_to-below b c pos same below = ground (arith, same, below)

  -- A cursor that is marked as at its end reads nothing, in any buffer.
  read_batch-at_end :
      (fuel : ℕ) (b : PersistentRingBuffer) (c : Cursor) (n : ℕ)
      → n * 48 < 2 ^ 63
      → c.at_end ≡ true
      → read_batch (suc fuel) b c n ≡ (ok [], c)
  unfolding batch_loop batch_round
  read_batch-at_end fuel b c zero fits e = read_batch-fits (suc fuel) b c zero fits
  read_batch-at_end fuel b c (suc n) fits e =
      read_batch-fits (suc fuel) b c (suc n) fits ∙ rw (next-done fuel b c e) refl

  -- A cursor of the current lap of a valid buffer has the records `rs` between it and the write
  -- position, and knows whether there are any. After the write of a record `r` whose length,
  -- timestamp and tag fit the header's fields and which does not wrap, `read_batch` of `n`
  -- records, which are fewer than 2^63 bytes, returns the first `n` of `rs` with `r` behind them,
  -- or all if there are fewer, if `rs` has a record; if `rs` has none it returns no record, though
  -- `r` is there. After `seek_to` to its own position the cursor returns them in both cases.
  pub read_batch-after_write :
      (fuel : ℕ) (b : PersistentRingBuffer) (c : Cursor) (rs : List Record) (r : Record)
      (io : Option ℕ) (n : ℕ)
      → n * 48 < 2 ^ 63
      → AtFrames b c rs
      → IsStorable r
      → b.control.write_pos + frame_size r ≤ b.size
      → let b' = (write b r io).1 in
        ((read_batch (suc fuel) b' c n).0
          ≡ ok (if is_nil rs then [] else map stored (take n (rs ++ (r ∷ [])))))
        × ((read_batch (suc fuel) b' (seek_to b' c c.position) n).0
            ≡ ok (map stored (take n (rs ++ (r ∷ [])))))
  read_batch-after_write fuel b c rs r io n fits h s room =
      let b' = after_write b r in
      let written = write_lem b r io h.valid (omega (arith, s)) (omega (arith, room)) in
      let going = after_write-AtFrames b c.position rs r h.valid h.same_lap h.ahead s room in
      let all =
        (read_batch-frames fuel b' (record { position = c.position; at_end = false }) n
          (rs ++ (r ∷ [])) fits going).0 in
      let before = Frames-le b.mmap c.position.offset rs b.control.write_pos h.ahead in
      let sought =
        seek_to-below b' c c.position (h.same_lap ∙ sym (wrap_count-stay b r h.valid room))
          (omega (arith, before, write_pos-stay b r h.valid room)) in
      rw written (as_it_is rs h.end all, rw sought all)
    where
      as_it_is :
          (rs : List Record)
          → c.at_end ≡ is_nil rs
          → (read_batch
              (suc fuel)
              (after_write b r)
              (record { position = c.position; at_end = false })
              n).0
            ≡ ok (map stored (take n (rs ++ (r ∷ []))))
          → (read_batch (suc fuel) (after_write b r) c n).0
            ≡ ok (if is_nil rs then [] else map stored (take n (rs ++ (r ∷ []))))
      as_it_is [] e all = ap (λ o. o.0) (read_batch-at_end fuel (after_write b r) c n fits e)
      as_it_is (x ∷ rs) e all =
          ap
            (λ end.
              (read_batch (suc fuel) (after_write b r)
                (record { position = c.position; at_end = end }) n).0)
            e
          ∙ all
