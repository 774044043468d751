-- ===== src/Disk/Persistent/Unmapped.antt =====
-- `PersistentRingBuffer::new` on an empty file that it cannot map.
use Prim.Native.String.{String}
use ring_buffer.Prelude.{
  ℕ, zero, suc, ◌+◌, ◌≤◌, ◌≡◌, refl, ap, List, [], ◌∷◌, none, some, false, arith, take, replicate,
  length-replicate, ◌==◌,
}
use ring_buffer.Bytes.{from_le_bytes}
use ring_buffer.Bytes.Laws.{slice-in_bounds}
use ring_buffer.Platform.{Platform, add64}
use ring_buffer.Disk.ControlBlock
use ring_buffer.Disk.ControlBlock.{ControlBlock}
use ring_buffer.Disk.Outcome.{err, io_error, invalid_buffer}
use ring_buffer.Disk.Persistent.Open.{OpenIo, create, open_existing, new}
use ring_buffer.Disk.Persistent.Valid.{max_size}

take-replicate {ℓ} : {A : Type ℓ} (n m : ℕ) (x : A) → n ≤ m → take n (replicate m x) ≡ replicate n x
take-replicate zero m x h = refl
take-replicate (suc n) zero x h = absurd (omega arith)
take-replicate (suc n) (suc m) x h = ap (λ l. x ∷ l) (take-replicate n m x (omega arith))

-- Zeros are no control block.
magic-zeros : (ControlBlock.from_bytes (replicate 48 0)).magic ≡ 0
unfolding ControlBlock.from_bytes from_le_bytes
magic-zeros = refl

module _ ⦃p : Platform⦄ where
  open_existing-zeros :
      (path : String) (io : OpenIo) (n : ℕ)
      → 48 ≤ n
      → io.mapped ≡ none
      → open_existing path io (replicate n 0) ≡ err invalid_buffer
  unfolding open_existing
  open_existing-zeros path io n enough mapped =
      let read =
        slice-in_bounds (replicate n 0) 0 48
          (omega (arith, enough, length-replicate {A = ℕ} n 0)) in
      rw (mapped, read, take-replicate {A = ℕ} 48 n 0 enough, magic-zeros) refl

  -- On an empty file, when the system opens it, reads its metadata and sets its length but does
  -- not map it, `PersistentRingBuffer::new` of a size up to 2^62 fails with the system's error and
  -- leaves a file that `new` does not open any more: though all of the system's calls that it
  -- makes then succeed, it fails with `InvalidBuffer` for every size and leaves the file as it is.
  pub new-unmapped :
      (path : String) (io io' : OpenIo) (size : ℕ) (e : ℕ)
      → size ≤ max_size
      → io.opened ≡ none
      → io.metadata ≡ none
      → io.set_len ≡ none
      → io.mapped ≡ some e
      → io'.opened ≡ none
      → io'.metadata ≡ none
      → io'.mapped ≡ none
      → (file : List ℕ) × (new path io [] size ≡ (err (io_error e), file))
        × ((size' : ℕ) → new path io' file size' ≡ (err invalid_buffer, file))
  unfolding new create
  new-unmapped path io io' size e small opened metadata set_len mapped opened' metadata' mapped' =
      let total : add64 size 48 ≡ size + 48 = omega (arith, small) in
      let file : List ℕ = replicate (size + 48) 0 in
      let len = length-replicate {A = ℕ} (size + 48) 0 in
      let some_bytes : ((size + 48) == 0) ≡ false = ground arith in
      let refused = open_existing-zeros path io' (size + 48) (omega arith) mapped' in
      (
        file,
        rw (opened, metadata, set_len, total, mapped) refl,
        λ size'. rw (refused, opened', metadata', len, some_bytes) refl,
      )
