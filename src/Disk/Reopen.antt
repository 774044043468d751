-- ===== src/Disk/Reopen.antt =====
-- `PersistentRingBuffer::new`: what a new file becomes, and what an existing one is opened as.
use Prim.Native.String.{String}
use ring_buffer.Prelude.{
  ℕ, ◌+◌, ◌≤◌, ◌≡◌, ◌≢◌, refl, ap, ◌∙◌, List, [], Option, none, arith, length, replicate,
  length-replicate, true, false, not, Bool, ◌&&◌, ◌||◌, if◌then◌else◌, ◌==◌, Bool-cases, inl, inr,
  and-false,
}
use ring_buffer.Bytes.{overwrite}
use ring_buffer.Bytes.Laws.{
  slice-in_bounds, copy_from_slice-in_bounds, length-overwrite, range_of-overwrite,
}
use ring_buffer.Platform.{Platform, add64}
use ring_buffer.Memory.Record.{Record}
use ring_buffer.Disk.ControlBlock
use ring_buffer.Disk.ControlBlock.{ControlBlock, IsBlock}
use ring_buffer.Disk.ControlBlock.Crc.{
  DetectsBursts, length-as_bytes, from_bytes-as_bytes, update_crc-IsBlock, verify_crc-update_crc,
}
use ring_buffer.Disk.Outcome.{ok, err, invalid_buffer}
use ring_buffer.Disk.Persistent.{PersistentRingBuffer, write, wrapped}
use ring_buffer.Disk.Persistent.Open.{OpenIo, initialised, create, open_existing, new}
use ring_buffer.Disk.Persistent.Valid.{IsValid, max_size}
use ring_buffer.Disk.Persistent.Write.{
  IsVec, frame_size, after_write, write_lem, after_write-IsValid, crc32-wrapped,
}
use ring_buffer.Disk.Queue.Refine.{Holds}

-- Every call of the operating system succeeds.
abbrev pub succeeds : OpenIo
succeeds = record { opened = none; metadata = none; set_len = none; mapped = none }

if_de_morgan {ℓ} :
    {A : Type ℓ} (x y : Bool) (bad good : A)
    → (if not x || not y then bad else good) ≡ (if x && y then good else bad)
if_de_morgan true true bad good = refl
if_de_morgan true false bad good = refl
if_de_morgan false y bad good = refl

module _ ⦃p : Platform⦄ where
  -- The buffer over a file that was empty.
  abbrev pub fresh : String → ℕ → PersistentRingBuffer
  fresh path size = record {
    path = path;
    mmap = overwrite (replicate (size + 48) 0) 0 (ControlBlock.as_bytes (ControlBlock.new size));
    control = ControlBlock.new size;
    size = size;
  }

  new-IsBlock : (size : ℕ) → size ≤ max_size → IsBlock (ControlBlock.new size)
  unfolding ControlBlock.new
  new-IsBlock size h = update_crc-IsBlock _ (omega arith)

  fresh-Holds : (path : String) (size : ℕ) → size ≤ max_size → Holds (fresh path size) []
  unfolding ControlBlock.new ControlBlock.update_crc
  fresh-Holds path size h =
      let file : List ℕ = replicate (size + 48) 0 in
      let len : length file ≡ size + 48 = length-replicate (size + 48) 0 in
      record {
        valid = record {
          mapped =
              omega (
                arith,
                len,
                length-overwrite file 0 (ControlBlock.as_bytes (ControlBlock.new size)),
              );
          size_le = h;
          write_pos_le = omega arith;
          read_pos_le = omega arith;
          block = new-IsBlock size h;
          saved =
              range_of-overwrite file 0 _ 48 (length-as_bytes (ControlBlock.new size))
                (omega (arith, len));
        };
        unread = refl;
      }

  -- On an empty file, when the system's calls succeed, `PersistentRingBuffer::new` makes a valid
  -- buffer of the size asked for, up to 2^62 bytes, that has no unread record, and its bytes are
  -- the file.
  pub new-empty :
      (path : String) (size : ℕ)
      → size ≤ max_size
      → (new path succeeds [] size ≡ (ok (fresh path size), (fresh path size).mmap))
        × Holds (fresh path size) []
  unfolding new create initialised
  new-empty path size h =
      let file : List ℕ = replicate (size + 48) 0 in
      let total : add64 size 48 ≡ size + 48 = omega arith in
      let len : length file ≡ size + 48 = length-replicate (size + 48) 0 in
      let block = length-as_bytes (ControlBlock.new size) in
      let copy =
        copy_from_slice-in_bounds file 0 (ControlBlock.as_bytes (ControlBlock.new size))
          (omega (arith, len, block)) in
      (rw (total, copy) refl, fresh-Holds path size h)

  -- When the system's calls succeed, `PersistentRingBuffer::new` on the file of a valid buffer
  -- leaves the file as it is, and opens it with that buffer's control block and the size that is
  -- in it if the magic number is right and the checksum verifies, and fails with `InvalidBuffer`
  -- otherwise.
  pub new-existing :
      (path : String) (b : PersistentRingBuffer) (size : ℕ)
      → IsValid b
      → new path succeeds b.mmap size ≡ (
        if (b.control.magic == ControlBlock.magic_number) && ControlBlock.verify_crc b.control
            then ok (record {
              path = path;
              mmap = b.mmap;
              control = b.control;
              size = b.control.buffer_size;
            })
            else err invalid_buffer,
        b.mmap,
      )
  unfolding new open_existing
  new-existing path b size v =
      let not_empty : (length b.mmap == 0) ≡ false = ground (arith, v.mapped) in
      let range = slice-in_bounds b.mmap 0 48 (omega (arith, v.mapped)) in
      rw (not_empty, range, v.saved, from_bytes-as_bytes b.control v.block)
        (ap (λ o. (o, b.mmap))
          (if_de_morgan (b.control.magic == ControlBlock.magic_number)
            (ControlBlock.verify_crc b.control) _ _))

  not_verified :
      (b : PersistentRingBuffer) (c : ControlBlock)
      → c.crc32 ≡ b.control.crc32
      → DetectsBursts p
      → IsValid b
      → (ControlBlock.update_crc c).crc32 ≢ b.control.crc32
      → ControlBlock.verify_crc (ControlBlock.update_crc c) ≡ false
  not_verified b c same bursts v changed =
      elim (Bool-cases (ControlBlock.verify_crc (ControlBlock.update_crc c))) [
        | inr stale ↦ stale
        | inl good ↦ absurd (
            changed (
              (verify_crc-update_crc c bursts (omega (arith, same, v.block.crc32_lt))).0 good
              ∙ same))
      ]

  -- If the checksum tells apart runs of bytes that differ in their last four only, then a valid
  -- buffer to which a record that fits was written cannot be opened again whenever that write has
  -- changed the checksum field: `PersistentRingBuffer::new` on its file fails with
  -- `InvalidBuffer`, though the system's calls succeed.
  pub new-after_write :
      (path : String) (b : PersistentRingBuffer) (r : Record) (io : Option ℕ) (size : ℕ)
      → DetectsBursts p
      → IsValid b
      → IsVec r
      → frame_size r ≤ b.size
      → (write b r io).1.control.crc32 ≢ b.control.crc32
      → new path succeeds (write b r io).1.mmap size ≡ (err invalid_buffer, (write b r io).1.mmap)
  new-after_write path b r io size bursts v small fits changed =
      let c = record (wrapped b (frame_size r)) {
        write_pos = (wrapped b (frame_size r)).write_pos + frame_size r;
      } in
      let w = write_lem b r io v small fits in
      let stale : ControlBlock.verify_crc (ControlBlock.update_crc c) ≡ false =
        not_verified b c (crc32-wrapped b (frame_size r)) bursts v (λ e. (rw w at changed) e) in
      rw
        (
          w,
          new-existing path (after_write b r) size (after_write-IsValid b r v fits),
          stale,
          and-false,
        )
        refl
