-- ===== src/Disk/Persistent/Above.antt =====
-- The records above the place of a write, which it leaves as they are.
use ring_buffer.Prelude.{ℕ, ◌+◌, ◌≤◌, ◌<◌, ◌≡◌, refl, ◌∙◌, List, [], ◌∷◌, Option, arith, length}
use ring_buffer.Bytes.{range_of}
use ring_buffer.Bytes.Laws.{range_of-overwrite_above}
use ring_buffer.Platform.{Platform, add64}
use ring_buffer.Memory.Record.{Record}
use ring_buffer.Disk.ControlBlock.Crc.{length-as_bytes}
use ring_buffer.Disk.Header.Layout.{length-as_bytes as length-header_bytes}
use ring_buffer.Disk.Persistent.{PersistentRingBuffer, header_for, wrapped}
use ring_buffer.Disk.Persistent.Valid.{IsValid, advanced}
use ring_buffer.Disk.Persistent.Write.{
  frame_size, after_write, write_lem, after_write-IsValid, wrapped-stay, wrapped-wraps,
}
use ring_buffer.Disk.Persistent.Frames.{Frames}
use ring_buffer.Disk.Persistent.Lap.{
  write_pos-stay, write_pos-wrap, wrap_count-stay, wrap_count-wrap,
}
use ring_buffer.Disk.Persistent.Wrap.{write_all}
use ring_buffer.Disk.Persistent.Passed.{frames_size}

module _ ⦃p : Platform⦄ where
  range_of-after_write_above :
      (b : PersistentRingBuffer) (r : Record) (q n : ℕ)
      → 48 + (wrapped b (frame_size r)).write_pos + frame_size r ≤ q
      → range_of (after_write b r).mmap q n ≡ range_of b.mmap q n
  range_of-after_write_above b r q n above =
      let control = wrapped b (frame_size r) in
      range_of-overwrite_above _ 0 _ q n
        (omega (arith, above, length-as_bytes (advanced control r)))
      ∙ range_of-overwrite_above _ _ r.bytes q n (omega (arith, above))
      ∙ range_of-overwrite_above b.mmap _ _ q n
          (omega (arith, above, length-header_bytes (header_for r)))

  -- Two maps that agree from a position on hold the same records there.
  Frames-from :
      (m m' : List ℕ) (from pos : ℕ) (rs : List Record) (end : ℕ)
      → ((q n : ℕ) → 48 + from ≤ q → range_of m' q n ≡ range_of m q n)
      → from ≤ pos
      → Frames m pos rs end
      → Frames m' pos rs end
  Frames-from m m' from pos [] end same le f = f
  Frames-from m m' from pos (r ∷ rs) end same le f = (
    f.0,
    record {
      header_bytes = same (48 + pos) 24 (omega arith) ∙ f.1.header_bytes;
      data_bytes = same (48 + pos + 24) (length r.bytes) (omega arith) ∙ f.1.data_bytes;
    },
    Frames-from m m' from (pos + frame_size r) rs end same (omega arith) f.2,
  )

  -- What writes below a position of an earlier lap keep.
  pub record Keeps (b b' : PersistentRingBuffer) (pos wrap_count : ℕ) : Type 0 where
    pub valid : IsValid b'
    pub size_eq : b'.size ≡ b.size
    pub wrap_count_eq : b'.control.wrap_count ≡ wrap_count
    pub frames : (rs : List Record) (end : ℕ) → Frames b.mmap pos rs end → Frames b'.mmap pos rs end

  pub write_all-Keeps :
      (ws : List (Record × Option ℕ)) (b : PersistentRingBuffer) (pos : ℕ)
      → IsValid b
      → pos ≤ b.size
      → b.control.write_pos + frames_size ws ≤ pos
      → Keeps b (write_all b ws) pos b.control.wrap_count
  unfolding write_all
  write_all-Keeps [] b pos v inside below = record {
    valid = v;
    size_eq = refl;
    wrap_count_eq = refl;
    frames = λ rs end f. f;
  }
  write_all-Keeps ((r, io) ∷ ws) b pos v inside below =
      let fits : b.control.write_pos + frame_size r ≤ b.size = omega arith in
      let end = write_pos-stay b r v fits in
      let rest =
        write_all-Keeps ws (after_write b r) pos (after_write-IsValid b r v (omega arith)) inside
          (omega (arith, end)) in
      rw (write_lem b r io v (omega (arith, v.size_le)) (omega arith)) (record {
        valid = rest.valid;
        size_eq = rest.size_eq;
        wrap_count_eq = rest.wrap_count_eq ∙ wrap_count-stay b r v fits;
        frames = λ rs end f. rest.frames rs end (
            Frames-from b.mmap _ (b.control.write_pos + frame_size r) pos rs end
              (λ q n above.
                range_of-after_write_above b r q n
                  (rw (wrapped-stay b (frame_size r) v fits) (omega (arith, above))))
              (omega arith) f);
      })

  -- A write that wraps, and writes behind it, below a position.
  pub wrap-Keeps :
      (b : PersistentRingBuffer) (r : Record) (io : Option ℕ) (ws : List (Record × Option ℕ))
      (pos : ℕ)
      → IsValid b
      → pos ≤ b.size
      → b.size < b.control.write_pos + frame_size r
      → frame_size r + frames_size ws ≤ pos
      → Keeps b (write_all b ((r, io) ∷ ws)) pos (add64 b.control.wrap_count 1)
  unfolding write_all
  wrap-Keeps b r io ws pos v inside over below =
      let fits : frame_size r ≤ b.size = omega arith in
      let end = write_pos-wrap b r v fits over in
      let rest =
        write_all-Keeps ws (after_write b r) pos (after_write-IsValid b r v fits) inside
          (omega (arith, end)) in
      rw (write_lem b r io v (omega (arith, v.size_le)) fits) (record {
        valid = rest.valid;
        size_eq = rest.size_eq;
        wrap_count_eq = rest.wrap_count_eq ∙ wrap_count-wrap b r v fits over;
        frames = λ rs end f. rest.frames rs end (
            Frames-from b.mmap _ (frame_size r) pos rs end
              (λ q n above.
                range_of-after_write_above b r q n
                  (rw (wrapped-wraps b (frame_size r) v fits over) (omega (arith, above))))
              (omega arith) f);
      })
