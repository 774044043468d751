-- ===== src/Bindings/Ios/Corrupt.antt =====
-- What a Swift program sees of a record whose checksum does not match.
use ring_buffer.Prelude.{
  ℕ, suc, ◌^◌, ◌<◌, ◌≡◌, refl, List, [], none, some, arith, length, get_elem?,
}
use ring_buffer.Platform.{Platform}
use ring_buffer.Memory.Record.{Record}
use ring_buffer.Disk.Outcome.{PersistentError, ok}
use ring_buffer.Disk.Persistent.{PersistentRingBuffer}
use ring_buffer.Disk.Cursor.Batch.{read_batch-fits}
use ring_buffer.Disk.Cursor.Corrupt.{AtError, next-AtError, batch_loop-AtError}
use ring_buffer.Bindings.{Library, OwnedCursor}
use ring_buffer.Bindings.Ios.{
  swift_next, swift_records, with_buffer, swift_read_next, swift_read_batch,
}

module _ ⦃p : Platform⦄ where
  -- On a valid buffer, with the records `rs` between a cursor that is not at its end and a
  -- position below the write position at which `read_at` fails with an error, `swift_read_batch`
  -- of a `u32` of more than these records returns no record and leaves the cursor at that
  -- position, where `swift_read_next` finds no record, as at the end of the buffer, and leaves the
  -- cursor as it is.
  pub swift_read_batch-corrupt :
      (fuel : ℕ) (lib : Library) (c : OwnedCursor) (n : ℕ) (b : PersistentRingBuffer)
      (rs : List Record) (pos : ℕ) (e : PersistentError)
      → get_elem? lib.globals.disks c.buffer ≡ some b
      → n < 2 ^ 32
      → AtError b c.cursor rs pos e
      → length rs < n
      → (c' : OwnedCursor) × (swift_read_batch (suc fuel) lib c n ≡ (ok [], c'))
        × (c'.cursor.position.offset ≡ pos)
        × (swift_read_next (suc fuel) lib c' ≡ (ok none, c'))
  unfolding swift_read_batch swift_read_next with_buffer swift_records swift_next
  swift_read_batch-corrupt fuel lib c n b rs pos e on_disk small h more =
      let (c', ran, h') = batch_loop-AtError fuel b n [] c.cursor rs pos e h more in
      let fits = read_batch-fits (suc fuel) b c.cursor n (omega (arith, small)) in
      (
        record c { cursor = c' },
        rw (on_disk, fits, ran) refl,
        h'.ahead,
        rw (on_disk, next-AtError fuel b c' pos e h') refl,
      )
