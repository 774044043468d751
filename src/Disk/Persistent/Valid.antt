-- ===== src/Disk/Persistent/Valid.antt =====
-- The representation invariant of the persistent buffer: every access of a method is in bounds, no
-- position wraps, and the file begins with the control block.
use ring_buffer.Prelude.{ℕ, ◌+◌, ◌≤◌, ◌^◌, ◌≡◌, refl, ◌∙◌, List, arith, length}
use ring_buffer.Bytes.{range_of, overwrite}
use ring_buffer.Bytes.Laws.{
  length-overwrite, range_of-overwrite, range_of-overwrite_above, copy_from_slice-in_bounds,
}
use ring_buffer.Platform.{Platform, add64}
use ring_buffer.Memory.Record.{Record}
use ring_buffer.Disk.ControlBlock
use ring_buffer.Disk.ControlBlock.{ControlBlock, IsBlock}
use ring_buffer.Disk.ControlBlock.Crc.{length-as_bytes, update_crc-IsBlock}
use ring_buffer.Disk.Header
use ring_buffer.Disk.Header.Layout.{length-as_bytes as length-header_bytes}
use ring_buffer.Disk.Outcome.{ok}
use ring_buffer.Disk.Persistent.{PersistentRingBuffer, header_for, save_control, store}

-- `max_size` is far beyond any mapped file, and keeps the sums of positions below 2^64.
abbrev pub max_size : ℕ
max_size = 2 ^ 62

module _ ⦃p : Platform⦄ where
  pub record IsValid (b : PersistentRingBuffer) : Type 0 where
    pub mapped : length b.mmap ≡ 48 + b.size
    pub size_le : b.size ≤ max_size
    pub write_pos_le : b.control.write_pos ≤ b.size
    pub read_pos_le : b.control.read_pos ≤ b.size + 24
    pub block : IsBlock b.control
    pub saved : range_of b.mmap 0 48 ≡ ControlBlock.as_bytes b.control

  -- The map and the control block that `save_control` leaves.
  abbrev pub saved_map : List ℕ → ControlBlock → List ℕ
  saved_map mmap control =
      overwrite mmap 0 (ControlBlock.as_bytes (ControlBlock.update_crc control))

  pub save_control-in_bounds :
      (mmap : List ℕ) (control : ControlBlock)
      → 48 ≤ length mmap
      → save_control mmap control ≡ ok (saved_map mmap control, ControlBlock.update_crc control)
  unfolding save_control
  save_control-in_bounds mmap control h =
      rw
        (copy_from_slice-in_bounds mmap 0 (ControlBlock.as_bytes (ControlBlock.update_crc control))
          (omega (arith, length-as_bytes (ControlBlock.update_crc control))))
        refl

  -- The data section is as before.
  pub range_of-saved_map :
      (mmap : List ℕ) (control : ControlBlock) (at n : ℕ)
      → range_of (saved_map mmap control) (48 + at) n ≡ range_of mmap (48 + at) n
  range_of-saved_map mmap control at n =
      range_of-overwrite_above mmap 0 _ (48 + at) n
        (omega (arith, length-as_bytes (ControlBlock.update_crc control)))

  -- A new read position keeps the invariant.
  pub moved-IsValid :
      (b : PersistentRingBuffer) (n : ℕ)
      → IsValid b
      → n ≤ b.size + 24
      → IsValid (record b {
        mmap = saved_map b.mmap (record b.control { read_pos = n });
        control = ControlBlock.update_crc (record b.control { read_pos = n });
      })
  unfolding ControlBlock.update_crc
  moved-IsValid b n v h = record {
    mapped = length-overwrite b.mmap 0 _ ∙ v.mapped;
    size_le = v.size_le;
    write_pos_le = v.write_pos_le;
    read_pos_le = h;
    block =
        update_crc-IsBlock (record b.control { read_pos = n }) (omega (arith, v.block, v.size_le));
    saved =
        range_of-overwrite b.mmap 0 _ 48
          (length-as_bytes (ControlBlock.update_crc (record b.control { read_pos = n })))
          (omega (arith, v.mapped));
  }

  -- The map after header, data and control block have been written at a position.
  abbrev pub with_frame : List ℕ → ControlBlock → Record → List ℕ
  with_frame mmap control r =
      overwrite (overwrite mmap (48 + control.write_pos) (Header.as_bytes (header_for r)))
        (48 + control.write_pos + 24) r.bytes

  abbrev pub advanced : ControlBlock → Record → ControlBlock
  advanced control r =
      ControlBlock.update_crc
        (record control { write_pos = control.write_pos + (24 + length r.bytes) })

  -- In bounds, `store` writes the frame and the new control block, and does not panic.
  pub store-in_bounds :
      (mmap : List ℕ) (control : ControlBlock) (r : Record) (size : ℕ)
      → length mmap ≡ 48 + size
      → size ≤ max_size
      → control.write_pos + (24 + length r.bytes) ≤ size
      → store mmap control r (24 + length r.bytes)
        ≡ ok (
          tt,
          overwrite (with_frame mmap control r) 0 (ControlBlock.as_bytes (advanced control r)),
          advanced control r,
        )
  unfolding store save_control
  store-in_bounds mmap control r size len small fits =
      let pos = 48 + control.write_pos in
      let header = Header.as_bytes (header_for r) in
      let e : add64 48 control.write_pos ≡ pos = omega arith in
      let e' : add64 pos 24 ≡ pos + 24 = omega arith in
      let e'' : add64 control.write_pos (24 + length r.bytes)
          ≡ control.write_pos + (24 + length r.bytes) =
        omega arith in
      let lh : length header ≡ 24 = length-header_bytes (header_for r) in
      let len' : length (overwrite mmap pos header) ≡ 48 + size =
        omega (arith, length-overwrite mmap pos header) in
      let len'' : length (with_frame mmap control r) ≡ 48 + size =
        omega (arith, length-overwrite (overwrite mmap pos header) (pos + 24) r.bytes) in
      rw
        (
          e,
          e',
          e'',
          copy_from_slice-in_bounds mmap pos header (omega arith),
          copy_from_slice-in_bounds (overwrite mmap pos header) (pos + 24) r.bytes (omega arith),
          copy_from_slice-in_bounds (with_frame mmap control r) 0
              (ControlBlock.as_bytes (advanced control r))
              (omega (arith, length-as_bytes (advanced control r))),
        )
        refl
