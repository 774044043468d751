-- ===== src/Disk/Persistent/Frames.antt =====
-- The data section as a sequence of records: what lies between two positions, and what a write
-- does to it.
use ring_buffer.Prelude.{
  ℕ, ◌+◌, ◌≤◌, ◌<◌, ◌≡◌, refl, ◌∙◌, sym, subst, List, [], ◌∷◌, ◌++◌, arith, length,
}
use ring_buffer.Bytes.{range_of, overwrite}
use ring_buffer.Bytes.Laws.{
  length-overwrite, range_of-overwrite, range_of-overwrite_below, range_of-overwrite_above,
}
use ring_buffer.Platform.{Platform, u32_mod, u64_mod}
use ring_buffer.Memory.Record.{Record}
use ring_buffer.Disk.ControlBlock
use ring_buffer.Disk.ControlBlock.{ControlBlock}
use ring_buffer.Disk.ControlBlock.Crc.{length-as_bytes}
use ring_buffer.Disk.Header
use ring_buffer.Disk.Header.Layout.{length-as_bytes as length-header_bytes}
use ring_buffer.Disk.Persistent.{header_for}
use ring_buffer.Disk.Persistent.Valid.{with_frame, advanced}
use ring_buffer.Disk.Persistent.Write.{frame_size}

-- The fields of the record's header fit their Rust types, and its length fits a `u32`.
pub record IsStorable (r : Record) : Type 0 where
  pub length_lt : length r.bytes < u32_mod
  pub timestamp_us_lt : r.header.timestamp_us < u64_mod
  pub tag_lt : r.header.tag < u32_mod

module _ ⦃p : Platform⦄ where
  -- The bytes of a record stand at a position of the data section.
  pub record FrameAt (mmap : List ℕ) (pos : ℕ) (r : Record) : Type 0 where
    pub header_bytes : range_of mmap (48 + pos) 24 ≡ Header.as_bytes (header_for r)
    pub data_bytes : range_of mmap (48 + pos + 24) (length r.bytes) ≡ r.bytes

  -- The records stand one behind the other, from `pos` up to `end`.
  abbrev pub Frames : List ℕ → ℕ → List Record → ℕ → Type 0
  Frames mmap pos [] end = pos ≡ end
  Frames mmap pos (r ∷ rs) end =
      IsStorable r × FrameAt mmap pos r × Frames mmap (pos + frame_size r) rs end

  pub Frames-le :
      (mmap : List ℕ) (pos : ℕ) (rs : List Record) (end : ℕ) → Frames mmap pos rs end → pos ≤ end
  Frames-le mmap pos [] end f = omega arith
  Frames-le mmap pos (r ∷ rs) end f = omega (arith, Frames-le mmap (pos + frame_size r) rs end f.2)

  -- A record behind the others.
  pub Frames-snoc :
      (mmap : List ℕ) (pos : ℕ) (rs : List Record) (end : ℕ) (r : Record)
      → Frames mmap pos rs end
      → IsStorable r
      → FrameAt mmap end r
      → Frames mmap pos (rs ++ (r ∷ [])) (end + frame_size r)
  Frames-snoc mmap pos [] end r f s at = (s, subst (λ q. FrameAt mmap q r) (sym f) at, rw f)
  Frames-snoc mmap pos (x ∷ rs) end r f s at =
      (f.0, f.1, Frames-snoc mmap (pos + frame_size x) rs end r f.2 s at)

  module _ (mmap : List ℕ) (control : ControlBlock) (r : Record) where
    -- The map that a write of `r` under `control` leaves.
    abbrev pub written : List ℕ
    written = overwrite (with_frame mmap control r) 0 (ControlBlock.as_bytes (advanced control r))

    -- Ranges of the data section below the write position are as before.
    pub range_of-written_below :
        (at n : ℕ)
        → at + n ≤ control.write_pos
        → range_of written (48 + at) n ≡ range_of mmap (48 + at) n
    range_of-written_below at n h =
        range_of-overwrite_above _ 0 _ (48 + at) n
          (omega (arith, length-as_bytes (advanced control r)))
        ∙ range_of-overwrite_below _ _ r.bytes (48 + at) n (omega arith)
        ∙ range_of-overwrite_below mmap _ _ (48 + at) n (omega arith)

    pub FrameAt-written_below :
        (pos : ℕ) (x : Record)
        → pos + frame_size x ≤ control.write_pos
        → FrameAt mmap pos x
        → FrameAt written pos x
    FrameAt-written_below pos x h f = record {
      header_bytes = range_of-written_below pos 24 (omega arith) ∙ f.header_bytes;
      data_bytes =
          subst (λ q. range_of written q (length x.bytes) ≡ x.bytes) (omega arith)
            (range_of-written_below (pos + 24) (length x.bytes) (omega arith)
              ∙ subst (λ q. range_of mmap q (length x.bytes) ≡ x.bytes) (omega arith) f.data_bytes);
    }

    pub Frames-written_below :
        (pos : ℕ) (rs : List Record) (end : ℕ)
        → end ≤ control.write_pos
        → Frames mmap pos rs end
        → Frames written pos rs end
    Frames-written_below pos [] end h f = f
    Frames-written_below pos (x ∷ rs) end h f = (
      f.0,
      FrameAt-written_below pos x (omega (arith, Frames-le mmap (pos + frame_size x) rs end f.2))
          f.1,
      Frames-written_below (pos + frame_size x) rs end h f.2,
    )

    -- The record itself stands at the write position.
    pub FrameAt-written :
        control.write_pos + frame_size r + 48 ≤ length mmap → FrameAt written control.write_pos r
    FrameAt-written h = record {
      header_bytes =
          range_of-overwrite_above _ 0 _ pos 24
            (omega (arith, length-as_bytes (advanced control r)))
          ∙ range_of-overwrite_below _ (pos + 24) r.bytes pos 24 (omega arith)
          ∙ range_of-overwrite mmap pos header 24 (length-header_bytes (header_for r))
              (omega arith);
      data_bytes =
          range_of-overwrite_above _ 0 _ (pos + 24) (length r.bytes)
            (omega (arith, length-as_bytes (advanced control r)))
          ∙ range_of-overwrite (overwrite mmap pos header) (pos + 24) r.bytes (length r.bytes) refl
              (omega (arith, length-overwrite mmap pos header));
    }
      where
        pos : ℕ
        pos = 48 + control.write_pos

        header : List ℕ
        header = Header.as_bytes (header_for r)
