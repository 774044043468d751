-- ===== src/Disk/Persistent/Opening.antt =====
-- `PersistentRingBuffer::new` on any file, whatever the system answers.
use Prim.Native.String.{String}
use ring_buffer.Prelude.{
  ℕ, ◌+◌, ◌≤◌, ◌<◌, ◌≡◌, refl, List, [], ◌∷◌, Option, none, some, Bool, true, false, ◌==◌,
  if◌then◌else◌, arith, length, replicate, length-replicate, dec_le,
}
use ring_buffer.Bytes.{slice}
use ring_buffer.Bytes.Laws.{slice-in_bounds, copy_from_slice-in_bounds, length-overwrite}
use ring_buffer.Platform.{Platform, add64}
use ring_buffer.Disk.ControlBlock
use ring_buffer.Disk.ControlBlock.Crc.{length-as_bytes}
use ring_buffer.Disk.Outcome.{
  PersistentError, ok, err, panic, undefined, unfinished, invalid_buffer, ◌>>◌, io_result, io_error,
}
use ring_buffer.Disk.Persistent.{PersistentRingBuffer}
use ring_buffer.Disk.Persistent.Open.{
  OpenIo, Opened, and_then, initialised, create, open_existing, new,
}
use ring_buffer.Disk.Persistent.Valid.{max_size}

-- What `new` may return on a file of `n` bytes, with the file that it leaves.
abbrev pub Opens : ℕ → Opened → Type 0
Opens n (ok b, file) = (b.mmap ≡ file) × (48 ≤ length file)
Opens n (err e, file) = Unit {0}
Opens n (panic, file) = (0 < n) × (n < 48)
Opens n (undefined, file) = ⊥
Opens n (unfinished, file) = ⊥

-- The file behind `new`: bytes that were there stay as they are, and a file that was empty gets no
-- more than the control block and the data section.
abbrev pub Leaves : ℕ → List ℕ → List ℕ → Type 0
Leaves size [] file' = length file' ≤ size + 48
Leaves size (x ∷ file) file' = file' ≡ x ∷ file

-- A property of what follows a call of the system holds if it holds of the error.
answered {ℓ} :
    (P : Opened → Type ℓ) (io : Option ℕ) (file : List ℕ) (next : Opened)
    → ((e : PersistentError) → P (err e, file))
    → P next
    → P (and_then (io_result io) file next)
answered P none file next bad good = good
answered P (some e) file next bad good = bad (io_error e)

slice-out_of_bounds : (mem : List ℕ) (pos n : ℕ) → length mem < pos + n → slice mem pos n ≡ none
unfolding slice
slice-out_of_bounds mem pos n h = ground (arith, h)

checked-Opens :
    (file : List ℕ) (bad : Bool) (b : PersistentRingBuffer)
    → b.mmap ≡ file
    → 48 ≤ length file
    → Opens (length file) ((if bad then err invalid_buffer else ok b), file)
checked-Opens file true b same enough = tt
checked-Opens file false b same enough = (same, enough)

module _ ⦃p : Platform⦄ where
  open_existing-Opens :
      (path : String) (io : OpenIo) (file : List ℕ)
      → 0 < length file
      → Opens (length file) (open_existing path io file, file)
  unfolding open_existing
  open_existing-Opens path io file some_bytes = mapped io.mapped
    where
      mapped :
          (m : Option ℕ)
          → Opens (length file) (open_existing path (record io { mapped = m }) file, file)
      mapped (some e) = tt
      mapped none = elim (dec_le 48 (length file)) [
        | yes enough ↦
            let read = slice-in_bounds file 0 48 (omega arith) in
            rw read (checked-Opens file _ _ refl enough)
        | no short ↦
            let panics = slice-out_of_bounds file 0 48 (omega (arith, short)) in
            rw panics (omega arith, omega (arith, short))
      ]

  -- On an empty file: it stays empty, or it gets the size asked for.
  Created : ℕ → Opened → Type 0
  Created size o = Opens 0 o × (length o.1 ≤ size + 48)

  create-Created :
      (path : String) (io : OpenIo) (size : ℕ)
      → size ≤ max_size
      → Created size (create path io size)
  unfolding Created create initialised
  create-Created path io size small =
      let file : List ℕ = replicate (size + 48) 0 in
      let total : add64 size 48 ≡ size + 48 = omega arith in
      let len : length file ≡ size + 48 = length-replicate (size + 48) 0 in
      let block = length-as_bytes (ControlBlock.new size) in
      let copy =
        copy_from_slice-in_bounds file 0 (ControlBlock.as_bytes (ControlBlock.new size))
          (omega (arith, len, block)) in
      let over = length-overwrite file 0 (ControlBlock.as_bytes (ControlBlock.new size)) in
      rw (total, copy)
        (answered (Created size) io.set_len [] _ (λ e. (tt, omega arith))
          (answered (Created size) io.mapped file _ (λ e. (tt, omega (arith, len)))
            ((refl, omega (arith, len, over)), omega (arith, len, over))))

  opened-io :
      (io : OpenIo) (file : List ℕ) (next : Opened)
      → (P : Opened → Type 0) → ((e : PersistentError) → P (err e, file))
      → P next
      → P (and_then (io_result io.opened >> io_result io.metadata) file next)
  opened-io io file next P bad good = both io.opened
    where
      both : (o : Option ℕ) → P (and_then (io_result o >> io_result io.metadata) file next)
      both none = answered P io.metadata file next bad good
      both (some e) = bad (io_error e)

  -- On any file and whatever the system answers, `PersistentRingBuffer::new` with a size up to
  -- 2^62 returns a buffer whose map is the file that it leaves, with room for a control block, or
  -- returns an error, or panics, the last only on a file of fewer than 48 bytes that is not empty;
  -- it does not run on. The bytes of a file that is not empty stay as they are, and one that is
  -- empty gets no more than the size asked for and the 48 bytes of the control block.
  pub new-Opens :
      (path : String) (io : OpenIo) (file : List ℕ) (size : ℕ)
      → size ≤ max_size
      → Opens (length file) (new path io file size) × Leaves size file (new path io file size).1
  unfolding new Created
  new-Opens path io [] size small =
      opened-io io [] (create path io size) (λ o. Opens 0 o × Leaves size [] o.1)
        (λ e. (tt, omega arith)) (create-Created path io size small)
  new-Opens path io (x ∷ file) size small =
      let not_empty : (length (x ∷ file) == 0) ≡ false = ground arith in
      rw not_empty (
        opened-io io (x ∷ file) (open_existing path io (x ∷ file), x ∷ file)
          (λ o. Opens (length (x ∷ file)) o × Leaves size (x ∷ file) o.1) (λ e. (tt, refl))
          (open_existing-Opens path io (x ∷ file) (omega arith), refl))
