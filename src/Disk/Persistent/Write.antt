-- ===== src/Disk/Persistent/Write.antt =====
-- `PersistentRingBuffer::write`: its three ways, and the invariant after it.
use ring_buffer.Prelude.{
  ℕ, ◌+◌, ◌≤◌, ◌<◌, ◌^◌, ◌≡◌, refl, ◌∙◌, Option, arith, length, ltb, false, dec_le,
}
use ring_buffer.Bytes.{overwrite}
use ring_buffer.Bytes.Laws.{length-overwrite, range_of-overwrite}
use ring_buffer.Platform.{Platform, add64}
use ring_buffer.Memory.Record.{Record}
use ring_buffer.Disk.ControlBlock
use ring_buffer.Disk.ControlBlock.{ControlBlock, IsBlock}
use ring_buffer.Disk.ControlBlock.Crc.{length-as_bytes, update_crc-IsBlock}
use ring_buffer.Disk.Outcome.{ok, err, invalid_record, ◌>>=◌, io_result}
use ring_buffer.Disk.Persistent.{PersistentRingBuffer, wrapped, write, flushed}
use ring_buffer.Disk.Persistent.Valid.{IsValid, with_frame, advanced, store-in_bounds}

module _ ⦃p : Platform⦄ where
  -- The length of a Rust vector is below `isize::MAX`.
  abbrev pub IsVec : Record → Type 0
  IsVec r = length r.bytes < 2 ^ 63

  abbrev pub frame_size : Record → ℕ
  frame_size r = 24 + length r.bytes

  pub wrapped-stay :
      (b : PersistentRingBuffer) (t : ℕ)
      → IsValid b
      → b.control.write_pos + t ≤ b.size
      → wrapped b t ≡ b.control
  unfolding wrapped
  wrapped-stay b t v h = ground arith

  pub wrapped-wraps :
      (b : PersistentRingBuffer) (t : ℕ)
      → IsValid b
      → t ≤ b.size
      → b.size < b.control.write_pos + t
      → wrapped b t ≡ record b.control { write_pos = 0; wrap_count = add64 b.control.wrap_count 1 }
  unfolding wrapped
  wrapped-wraps b t v h over = ground arith

  pub wrapped-fits :
      (b : PersistentRingBuffer) (t : ℕ)
      → IsValid b
      → t ≤ b.size
      → (wrapped b t).write_pos + t ≤ b.size
  unfolding wrapped
  wrapped-fits b t v h = ground arith

  wrapped-IsBlock : (b : PersistentRingBuffer) (t : ℕ) → IsValid b → IsBlock (wrapped b t)
  unfolding wrapped
  wrapped-IsBlock b t v = ground arith

  pub read_pos-wrapped :
      (b : PersistentRingBuffer) (t : ℕ) → (wrapped b t).read_pos ≡ b.control.read_pos
  unfolding wrapped
  read_pos-wrapped b t = ground arith

  pub crc32-wrapped : (b : PersistentRingBuffer) (t : ℕ) → (wrapped b t).crc32 ≡ b.control.crc32
  unfolding wrapped
  crc32-wrapped b t = ground arith

  -- The buffer that a write of a fitting record leaves.
  abbrev pub after_write : PersistentRingBuffer → Record → PersistentRingBuffer
  after_write b r =
      let control = wrapped b (frame_size r) in
      record b {
        mmap =
            overwrite (with_frame b.mmap control r) 0 (ControlBlock.as_bytes (advanced control r));
        control = advanced control r;
      }

  pub write_lem :
      (b : PersistentRingBuffer) (r : Record) (io : Option ℕ)
      → IsValid b
      → IsVec r
      → frame_size r ≤ b.size
      → write b r io ≡ (io_result io >>= λ _. ok tt, after_write b r)
  unfolding write flushed
  write_lem b r io v small fits =
      rw
        (
          add64-exact,
          ltb-false,
          store-in_bounds b.mmap (wrapped b (frame_size r)) r b.size v.mapped v.size_le
              (wrapped-fits b (frame_size r) v fits),
        )
        refl
    where
      add64-exact : add64 24 (length r.bytes) ≡ frame_size r
      add64-exact = omega arith

      ltb-false : ltb b.size (frame_size r) ≡ false
      ltb-false = ground arith

  pub write-too_large :
      (b : PersistentRingBuffer) (r : Record) (io : Option ℕ)
      → IsVec r
      → b.size < frame_size r
      → write b r io ≡ (err invalid_record, b)
  unfolding write
  write-too_large b r io small over = ground arith

  pub after_write-IsValid :
      (b : PersistentRingBuffer) (r : Record)
      → IsValid b
      → frame_size r ≤ b.size
      → IsValid (after_write b r)
  unfolding ControlBlock.update_crc
  after_write-IsValid b r v fits = record {
    mapped = omega (arith, v.mapped, after_len);
    size_le = v.size_le;
    write_pos_le = wrapped-fits b (frame_size r) v fits;
    read_pos_le = omega (arith, read_pos-wrapped b (frame_size r), v.read_pos_le);
    block = update_crc-IsBlock _ (
        omega (
          arith,
          wrapped-IsBlock b (frame_size r) v,
          wrapped-fits b (frame_size r) v fits,
          v.size_le,
        ));
    saved =
        range_of-overwrite (with_frame b.mmap (wrapped b (frame_size r)) r) 0 _ 48
          (length-as_bytes (advanced (wrapped b (frame_size r)) r))
          (omega (arith, v.mapped, frame_len));
  }
    where
      frame_len : length (with_frame b.mmap (wrapped b (frame_size r)) r) ≡ length b.mmap
      frame_len = length-overwrite _ _ r.bytes ∙ length-overwrite b.mmap _ _

      after_len : length (after_write b r).mmap ≡ length b.mmap
      after_len = length-overwrite _ 0 _ ∙ frame_len

  -- For a record whose data is a Rust vector, `write` keeps a valid buffer valid, whether it
  -- stores the record, wraps, refuses it or fails in its `flush`: the file keeps its length, the
  -- positions stay in bounds, each control field fits its type, and the file begins with the bytes
  -- of the control block in memory.
  pub write-IsValid :
      (b : PersistentRingBuffer) (r : Record) (io : Option ℕ)
      → IsValid b
      → IsVec r
      → IsValid (write b r io).1
  write-IsValid b r io v small = elim (dec_le (frame_size r) b.size) [
    | yes fits ↦ rw (write_lem b r io v small fits) (after_write-IsValid b r v fits)
    | no over ↦ rw (write-too_large b r io small (omega arith)) v
  ]
