-- ===== src/Disk/Persistent/Lap.antt =====
-- The records of the current lap round the data section, under each operation.
use ring_buffer.Prelude.{
  ℕ, ◌+◌, ◌≤◌, ◌<◌, ◌≡◌, refl, ◌∙◌, subst, List, [], ◌∷◌, ◌++◌, arith, length,
}
use ring_buffer.Bytes.{range_of}
use ring_buffer.Platform.{Platform, add64}
use ring_buffer.Memory.Record.{Record}
use ring_buffer.Disk.ControlBlock
use ring_buffer.Disk.ControlBlock.{ControlBlock}
use ring_buffer.Disk.Persistent.{PersistentRingBuffer}
use ring_buffer.Disk.Persistent.Valid.{IsValid, range_of-saved_map}
use ring_buffer.Disk.Persistent.Write.{
  frame_size, after_write, wrapped-stay, wrapped-wraps, read_pos-wrapped,
}
use ring_buffer.Disk.Persistent.Frames.{
  IsStorable, FrameAt, Frames, Frames-snoc, Frames-written_below, FrameAt-written,
}
use ring_buffer.Disk.Persistent.ReadAll.{moved}

module _ ⦃p : Platform⦄ where
  -- Two maps with the same data section hold the same records.
  FrameAt-same :
      (m m' : List ℕ) (pos : ℕ) (r : Record)
      → ((at n : ℕ) → range_of m' (48 + at) n ≡ range_of m (48 + at) n)
      → FrameAt m pos r
      → FrameAt m' pos r
  FrameAt-same m m' pos r same f = record {
    header_bytes = same pos 24 ∙ f.header_bytes;
    data_bytes =
        subst (λ q. range_of m' q (length r.bytes) ≡ r.bytes) (omega arith)
          (same (pos + 24) (length r.bytes)
            ∙ subst (λ q. range_of m q (length r.bytes) ≡ r.bytes) (omega arith) f.data_bytes);
  }

  Frames-same :
      (m m' : List ℕ) (pos : ℕ) (rs : List Record) (end : ℕ)
      → ((at n : ℕ) → range_of m' (48 + at) n ≡ range_of m (48 + at) n)
      → Frames m pos rs end
      → Frames m' pos rs end
  Frames-same m m' pos [] end same f = f
  Frames-same m m' pos (r ∷ rs) end same f =
      (f.0, FrameAt-same m m' pos r same f.1, Frames-same m m' (pos + frame_size r) rs end same f.2)

  -- Moving the read position leaves the records.
  pub Frames-moved :
      (b : PersistentRingBuffer) (n pos : ℕ) (rs : List Record) (end : ℕ)
      → Frames b.mmap pos rs end
      → Frames (moved b n).mmap pos rs end
  Frames-moved b n pos rs end =
      Frames-same b.mmap _ pos rs end
        (range_of-saved_map b.mmap (record b.control { read_pos = n }))

  -- A write that fits behind the others adds its record to them.
  pub Frames-stay :
      (b : PersistentRingBuffer) (r : Record) (pos : ℕ) (rs : List Record)
      → IsValid b
      → IsStorable r
      → b.control.write_pos + frame_size r ≤ b.size
      → Frames b.mmap pos rs b.control.write_pos
      → Frames (after_write b r).mmap pos (rs ++ (r ∷ [])) (b.control.write_pos + frame_size r)
  Frames-stay b r pos rs v s fits f = rw (wrapped-stay b (frame_size r) v fits) (
      Frames-snoc _ pos rs b.control.write_pos r
        (Frames-written_below b.mmap b.control r pos rs b.control.write_pos (omega arith) f) s
        (FrameAt-written b.mmap b.control r (omega (arith, v.mapped))))

  -- A write that wraps begins a lap with its record.
  pub Frames-wrap :
      (b : PersistentRingBuffer) (r : Record)
      → IsValid b
      → IsStorable r
      → frame_size r ≤ b.size
      → b.size < b.control.write_pos + frame_size r
      → Frames (after_write b r).mmap 0 (r ∷ []) (frame_size r)
  Frames-wrap b r v s fits over = rw (wrapped-wraps b (frame_size r) v fits over) (
    s,
    FrameAt-written b.mmap
        (record b.control { write_pos = 0; wrap_count = add64 b.control.wrap_count 1 }) r
        (omega (arith, v.mapped)),
    omega arith,
  )

  pub write_pos-stay :
      (b : PersistentRingBuffer) (r : Record)
      → IsValid b
      → b.control.write_pos + frame_size r ≤ b.size
      → (after_write b r).control.write_pos ≡ b.control.write_pos + frame_size r
  unfolding ControlBlock.update_crc
  write_pos-stay b r v fits = rw (wrapped-stay b (frame_size r) v fits) refl

  pub write_pos-wrap :
      (b : PersistentRingBuffer) (r : Record)
      → IsValid b
      → frame_size r ≤ b.size
      → b.size < b.control.write_pos + frame_size r
      → (after_write b r).control.write_pos ≡ frame_size r
  unfolding ControlBlock.update_crc
  write_pos-wrap b r v fits over = rw (wrapped-wraps b (frame_size r) v fits over) (omega arith)

  pub wrap_count-stay :
      (b : PersistentRingBuffer) (r : Record)
      → IsValid b
      → b.control.write_pos + frame_size r ≤ b.size
      → (after_write b r).control.wrap_count ≡ b.control.wrap_count
  unfolding ControlBlock.update_crc
  wrap_count-stay b r v fits = rw (wrapped-stay b (frame_size r) v fits) refl

  pub wrap_count-wrap :
      (b : PersistentRingBuffer) (r : Record)
      → IsValid b
      → frame_size r ≤ b.size
      → b.size < b.control.write_pos + frame_size r
      → (after_write b r).control.wrap_count ≡ add64 b.control.wrap_count 1
  unfolding ControlBlock.update_crc
  wrap_count-wrap b r v fits over = rw (wrapped-wraps b (frame_size r) v fits over) refl

  pub read_pos-after_write :
      (b : PersistentRingBuffer) (r : Record)
      → (after_write b r).control.read_pos ≡ b.control.read_pos
  unfolding ControlBlock.update_crc
  read_pos-after_write b r = read_pos-wrapped b (frame_size r)

  pub moved-fields :
      (b : PersistentRingBuffer) (n : ℕ)
      → ((moved b n).control.read_pos ≡ n)
        × ((moved b n).control.write_pos ≡ b.control.write_pos)
        × ((moved b n).control.wrap_count ≡ b.control.wrap_count)
  unfolding ControlBlock.update_crc
  moved-fields b n = (refl, refl, refl)
