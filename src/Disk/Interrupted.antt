-- ===== src/Disk/Interrupted.antt =====
-- What `PersistentRingBuffer::new` opens after a `write` that was cut short.
use Prim.Native.String.{String}
use ring_buffer.Prelude.{
  ℕ, ◌+◌, ◌≤◌, ◌≡◌, ap, ◌∙◌, sym, List, Option, ◌&&◌, ◌==◌, if◌then◌else◌, arith, ◌⊎◌, inl, inr,
  dec_le,
}
use ring_buffer.Platform.{Platform}
use ring_buffer.Memory.Record.{Record}
use ring_buffer.Disk.ControlBlock
use ring_buffer.Disk.ControlBlock.{ControlBlock}
use ring_buffer.Disk.Outcome.{ok, err, invalid_buffer}
use ring_buffer.Disk.Persistent.{PersistentRingBuffer, write, wrapped}
use ring_buffer.Disk.Persistent.Open.{new}
use ring_buffer.Disk.Persistent.Valid.{IsValid}
use ring_buffer.Disk.Persistent.Write.{IsVec, frame_size, write_lem, wrapped-stay, wrapped-wraps}
use ring_buffer.Disk.Persistent.Crash.{
  interrupted, interrupted-all, interrupted-IsTorn, Frames-torn,
}
use ring_buffer.Disk.Queue.Refine.{Holds}
use ring_buffer.Disk.Reopen.{succeeds, new-existing}

module _ ⦃p : Platform⦄ where
  -- The buffer over the file of an interrupted write, of a given size.
  abbrev opened : String → PersistentRingBuffer → Record → ℕ → ℕ → PersistentRingBuffer
  opened path b r n k = record {
    path = path;
    mmap = interrupted b r n;
    control = b.control;
    size = k;
  }

  -- The buffer over the file of an interrupted write, with the control block as before.
  abbrev pub before_write : String → PersistentRingBuffer → Record → ℕ → PersistentRingBuffer
  before_write path b r n = record b { path = path; mmap = interrupted b r n }

  -- The frame of the write stands outside the unread records.
  frame-apart :
      (b : PersistentRingBuffer) (r : Record)
      → IsValid b
      → frame_size r ≤ b.size
      → ((b.control.write_pos + frame_size r ≤ b.size) ⊎ (frame_size r ≤ b.control.read_pos))
      → (b.control.write_pos ≤ (wrapped b (frame_size r)).write_pos)
        ⊎ ((wrapped b (frame_size r)).write_pos + frame_size r ≤ b.control.read_pos)
  frame-apart b r v fits apart = elim (dec_le (b.control.write_pos + frame_size r) b.size) [
    | yes stays ↦ inl (rw (wrapped-stay b (frame_size r) v stays) (omega arith))
    | no wraps ↦
        let over = wrapped-wraps b (frame_size r) v fits (omega (arith, wraps)) in
        inr (rw over (ground (arith, wraps, apart)))
  ]

  before_write-Holds :
      (path : String) (b : PersistentRingBuffer) (q : List Record) (r : Record) (n : ℕ)
      → Holds b q
      → frame_size r ≤ b.size
      → ((b.control.write_pos + frame_size r ≤ b.size) ⊎ (frame_size r ≤ b.control.read_pos))
      → n ≤ frame_size r
      → Holds (before_write path b r n) q
  before_write-Holds path b q r n h fits apart cut =
      let torn = interrupted-IsTorn b r n cut in
      let v = h.valid in
      record {
        valid = record {
          mapped = torn.length_eq ∙ v.mapped;
          size_le = v.size_le;
          write_pos_le = v.write_pos_le;
          read_pos_le = v.read_pos_le;
          block = v.block;
          saved = torn.below 0 48 (omega arith) ∙ v.saved;
        };
        unread =
            Frames-torn b.mmap _ (wrapped b (frame_size r)).write_pos (frame_size r)
              b.control.read_pos q b.control.write_pos torn (frame-apart b r v fits apart) h.unread;
      }

  -- A process ends in a `write` to a valid buffer with the unread records `q`, after `n` of the
  -- bytes of header and data have reached the file; the control block's `buffer_size` is the
  -- buffer's size, the record is a Rust vector whose frame fits the data section, and its place
  -- does not reach into the unread records: it does not wrap, or ends before the read position.
  -- When the system's calls succeed, `PersistentRingBuffer::new` on that file gives the buffer
  -- with the control block as it was before the `write`, if its magic number and its checksum are
  -- right, and `InvalidBuffer` else; in that buffer exactly `q` is unread, whatever part of the
  -- frame was copied. The copy of all the bytes, the control block's included, is the map that
  -- `write` leaves.
  pub new-interrupted :
      (path : String) (b : PersistentRingBuffer) (q : List Record) (r : Record) (io : Option ℕ)
      (n size : ℕ)
      → Holds b q
      → b.control.buffer_size ≡ b.size
      → IsVec r
      → frame_size r ≤ b.size
      → ((b.control.write_pos + frame_size r ≤ b.size) ⊎ (frame_size r ≤ b.control.read_pos))
      → n ≤ frame_size r
      → let b' = before_write path b r n in
        (new path succeeds (interrupted b r n) size ≡ (
          if (b.control.magic == ControlBlock.magic_number) && ControlBlock.verify_crc b.control
              then ok b'
              else err invalid_buffer,
          interrupted b r n,
        ))
        × Holds b' q
        × (interrupted b r (frame_size r + 48) ≡ (write b r io).1.mmap)
  new-interrupted path b q r io n size h same_size small fits apart cut =
      let h' = before_write-Holds path b q r n h fits apart cut in
      (
        new-existing path (before_write path b r n) size h'.valid
            ∙ ap
                (λ (k : ℕ). (
                  if (b.control.magic == ControlBlock.magic_number)
                        && ControlBlock.verify_crc b.control
                      then ok (opened path b r n k)
                      else err invalid_buffer,
                  interrupted b r n,
                ))
                same_size,
        h',
        interrupted-all b r (frame_size r + 48) (omega arith)
            ∙ ap (λ o. o.1.mmap) (sym (write_lem b r io h.valid small fits)),
      )
