-- ===== src/Disk/Persistent/Truncated.antt =====
-- A file that is shorter than its control block says: `new` opens it, and `write` panics.
use Prim.Native.String.{String}
use ring_buffer.Prelude.{
  ℕ, ◌+◌, ◌≤◌, ◌<◌, ◌≡◌, refl, List, none, Option, true, false, ◌==◌, arith, length, ltb, dec_le,
}
use ring_buffer.Bytes.{range_of, copy_from_slice, overwrite}
use ring_buffer.Bytes.Laws.{slice-in_bounds, copy_from_slice-in_bounds, length-overwrite}
use ring_buffer.Platform.{Platform, add64}
use ring_buffer.Memory.Record.{Record}
use ring_buffer.Disk.ControlBlock
use ring_buffer.Disk.ControlBlock.{ControlBlock, IsBlock}
use ring_buffer.Disk.ControlBlock.Crc.{from_bytes-as_bytes}
use ring_buffer.Disk.Header
use ring_buffer.Disk.Header.Layout.{length-as_bytes as length-header_bytes}
use ring_buffer.Disk.Outcome.{ok, panic}
use ring_buffer.Disk.Persistent.{PersistentRingBuffer, header_for, wrapped, store, flushed, write}
use ring_buffer.Disk.Persistent.Open.{open_existing, new}
use ring_buffer.Disk.Persistent.Write.{frame_size}
use ring_buffer.Disk.Persistent.Valid.{max_size}
use ring_buffer.Disk.Reopen.{succeeds}

module _ ⦃p : Platform⦄ where
  copy_from_slice-out_of_bounds :
      (mem : List ℕ) (pos : ℕ) (bs : List ℕ)
      → length mem < pos + length bs
      → copy_from_slice mem pos bs ≡ none
  unfolding copy_from_slice
  copy_from_slice-out_of_bounds mem pos bs h = ground (arith, h)

  -- The buffer that `new` makes of a file with a good control block.
  abbrev pub over : String → List ℕ → ControlBlock → PersistentRingBuffer
  over path file c = record { path = path; mmap = file; control = c; size = c.buffer_size }

  new-good_block :
      (path : String) (file : List ℕ) (c : ControlBlock) (size : ℕ)
      → 48 ≤ length file
      → range_of file 0 48 ≡ ControlBlock.as_bytes c
      → IsBlock c
      → c.magic ≡ ControlBlock.magic_number
      → ControlBlock.verify_crc c ≡ true
      → new path succeeds file size ≡ (ok (over path file c), file)
  unfolding new open_existing
  new-good_block path file c size enough saved block magic good =
      let not_empty : (length file == 0) ≡ false = ground (arith, enough) in
      let range = slice-in_bounds file 0 48 (omega (arith, enough)) in
      let same : (c.magic == ControlBlock.magic_number) ≡ true = ground (arith, magic) in
      rw (not_empty, range, saved, from_bytes-as_bytes c block, same, good) refl

  -- A frame that does not fit the map.
  store-beyond :
      (mmap : List ℕ) (c : ControlBlock) (r : Record) (total_size : ℕ)
      → c.write_pos + frame_size r ≤ max_size
      → length mmap < 48 + c.write_pos + frame_size r
      → store mmap c r total_size ≡ panic
  unfolding store
  store-beyond mmap c r total_size small short =
      let pos : add64 48 c.write_pos ≡ 48 + c.write_pos = omega (arith, small) in
      let after : add64 (48 + c.write_pos) 24 ≡ 48 + c.write_pos + 24 = omega (arith, small) in
      let header = length-header_bytes (header_for r) in
      elim (dec_le (48 + c.write_pos + 24) (length mmap)) [
        | no beyond ↦
            rw
              (
                pos,
                copy_from_slice-out_of_bounds mmap (48 + c.write_pos)
                    (Header.as_bytes (header_for r)) (omega (arith, header, beyond)),
              )
              refl
        | yes inside ↦
            let copied = overwrite mmap (48 + c.write_pos) (Header.as_bytes (header_for r)) in
            rw
              (
                pos,
                copy_from_slice-in_bounds mmap (48 + c.write_pos) (Header.as_bytes (header_for r))
                    (omega (arith, header, inside)),
                after,
                copy_from_slice-out_of_bounds copied (48 + c.write_pos + 24) r.bytes (
                    omega (
                      arith,
                      short,
                      length-overwrite mmap (48 + c.write_pos) (Header.as_bytes (header_for r)),
                    )),
              )
              refl
      ]

  -- A write that the size has room for does not wrap.
  wrapped-room :
      (b : PersistentRingBuffer) (n : ℕ)
      → b.size ≤ max_size
      → b.control.write_pos + n ≤ b.size
      → wrapped b n ≡ b.control
  unfolding wrapped
  wrapped-room b n large room = ground (arith, large, room)

  write-beyond :
      (b : PersistentRingBuffer) (r : Record) (io : Option ℕ)
      → b.size ≤ max_size
      → b.control.write_pos + frame_size r ≤ b.size
      → length b.mmap < 48 + b.control.write_pos + frame_size r
      → (write b r io).0 ≡ panic
  unfolding write flushed
  write-beyond b r io large room short =
      let exact : add64 24 (length r.bytes) ≡ frame_size r = omega (arith, large, room) in
      let fits : ltb b.size (frame_size r) ≡ false = ground (arith, room) in
      rw
        (
          exact,
          fits,
          wrapped-room b (frame_size r) large room,
          store-beyond b.mmap b.control r (frame_size r) (omega (arith, large, room)) short,
        )
        refl

  -- A file of at least 48 bytes begins with a control block whose magic number and checksum are
  -- right, with a buffer size up to 2^62, and there is room for a record between its write
  -- position and its buffer size, but the file ends before that place does. When the system's
  -- calls succeed, `PersistentRingBuffer::new` opens the file, with the buffer size of the control
  -- block, and the `write` of that record panics.
  pub write-truncated :
      (path : String) (file : List ℕ) (c : ControlBlock) (size : ℕ) (r : Record) (io : Option ℕ)
      → 48 ≤ length file
      → range_of file 0 48 ≡ ControlBlock.as_bytes c
      → IsBlock c
      → c.magic ≡ ControlBlock.magic_number
      → ControlBlock.verify_crc c ≡ true
      → c.buffer_size ≤ max_size
      → c.write_pos + frame_size r ≤ c.buffer_size
      → length file < 48 + c.write_pos + frame_size r
      → (b : PersistentRingBuffer) × (new path succeeds file size ≡ (ok b, file))
        × (b.size ≡ c.buffer_size)
        × ((write b r io).0 ≡ panic)
  write-truncated path file c size r io enough saved block magic good large room short = (
    over path file c,
    new-good_block path file c size enough saved block magic good,
    refl,
    write-beyond (over path file c) r io large room short,
  )
