-- ===== src/Bindings/Jni/Batch.antt =====
-- `readBatch` of a pointer in use: the records that Java gets.
use ring_buffer.Prelude.{
  ℕ, suc, ◌^◌, ◌≤◌, ◌<◌, ◌≡◌, ◌≢◌, refl, ap, ◌∙◌, List, map, take, drop, Option, none, some, Bool,
  true, false, ◌==◌, arith, get_elem?, ◌⊎◌, inl, inr, dec_lt,
}
use ring_buffer.Platform.{Platform, fits_vec}
use ring_buffer.Memory.Record.{Record}
use ring_buffer.Disk.Outcome.{Outcome}
use ring_buffer.Disk.Persistent.{PersistentRingBuffer}
use ring_buffer.Disk.Persistent.Read.{stored}
use ring_buffer.Disk.Cursor
use ring_buffer.Disk.Cursor.{Cursor}
use ring_buffer.Disk.Cursor.Batch.{AtFrames, read_batch-frames}
use ring_buffer.Bindings.{OwnedCursor}
use ring_buffer.Bindings.Boxes.{box_at, set_box, box_at-set_box}
use ring_buffer.Bindings.Jni.{
  returned, aborted, Jvm, to_java, extended, to_array, batch_of, read_batch,
}

module _ ⦃p : Platform⦄ where
  -- A pointer to a live box.
  read_batch-live :
      (fuel : ℕ) (m : Jvm) (ptr max_count : ℕ) (vm_ok : Bool) (owned : OwnedCursor)
      → ptr ≢ 0
      → box_at m.cursors ptr ≡ some owned
      → read_batch fuel m ptr max_count vm_ok
        ≡ to_array m ptr owned vm_ok (
            batch_of fuel owned
              (extended max_count)
              (get_elem? m.library.globals.disks owned.buffer))
  unfolding read_batch
  read_batch-live fuel m ptr max_count vm_ok owned not_null alive =
      let live : (ptr == 0) ≡ false = ground (arith, not_null) in rw (live, alive) refl

  -- `readBatch` of a non-negative `jint` `n`, with the pointer of a live cursor of the current lap
  -- that has the records `rs` between it and the write position of a valid buffer, gives Java the
  -- first `n` of them, or all if there are fewer, with their data, checksum, tag and timestamp, if
  -- the virtual machine answers each call with a success. The cursor behind the pointer then
  -- stands before the others.
  pub java_read_batch-frames :
      (fuel : ℕ) (m : Jvm) (ptr n : ℕ) (owned : OwnedCursor) (b : PersistentRingBuffer)
      (rs : List Record)
      → ptr ≢ 0
      → box_at m.cursors ptr ≡ some owned
      → get_elem? m.library.globals.disks owned.buffer ≡ some b
      → AtFrames b owned.cursor rs
      → n < 2 ^ 31
      → (m' : Jvm) × (c : Cursor) × (read_batch (suc fuel) m ptr n true
          ≡ returned (some (map to_java (map stored (take n rs))), m'))
        × (box_at m'.cursors ptr ≡ some (record owned { cursor = c }))
        × AtFrames b c (drop n rs)
  unfolding extended batch_of to_array
  java_read_batch-frames fuel m ptr n owned b rs not_null alive on_disk h small =
      let (result, h') = read_batch-frames fuel b owned.cursor n rs (omega (arith, small)) h in
      let positive : extended n ≡ n = ground (arith, small) in
      let c = (Cursor.read_batch (suc fuel) b owned.cursor n).1 in
      (
        record m { cursors = set_box m.cursors ptr (record owned { cursor = c }) },
        c,
        read_batch-live (suc fuel) m ptr n true owned not_null alive
            ∙ rw (positive, on_disk)
                (ap (λ (o : Outcome (List Record)). to_array m ptr owned true (o, c)) result),
        box_at-set_box m.cursors ptr owned _ alive,
        h',
      )

  -- A negative count is a `usize` that no vector accepts.
  negative-batch :
      (fuel : ℕ) (owned : OwnedCursor) (max_count : ℕ) (b : Option PersistentRingBuffer)
      → 2 ^ 31 ≤ max_count
      → max_count < 2 ^ 32
      → batch_of fuel owned (extended max_count) b ≡ (Outcome.panic, owned.cursor)
  unfolding extended batch_of Cursor.read_batch fits_vec
  negative-batch fuel owned max_count none low high = refl
  negative-batch fuel owned max_count (some b) low high = ground (arith, low, high)

  -- `readBatch` of a negative `jint`, with the pointer of a live cursor, aborts the process,
  -- whatever the cursor's buffer holds.
  pub java_read_batch-negative :
      (fuel : ℕ) (m : Jvm) (ptr max_count : ℕ) (vm_ok : Bool) (owned : OwnedCursor)
      → ptr ≢ 0
      → box_at m.cursors ptr ≡ some owned
      → 2 ^ 31 ≤ max_count
      → max_count < 2 ^ 32
      → read_batch fuel m ptr max_count vm_ok ≡ aborted
  unfolding to_array
  java_read_batch-negative fuel m ptr max_count vm_ok owned not_null alive low high =
      read_batch-live fuel m ptr max_count vm_ok owned not_null alive
      ∙ ap (to_array m ptr owned vm_ok) (negative-batch fuel owned max_count _ low high)

  -- What Java gets of a batch, and the cursor behind it.
  abbrev pub Batched : ℕ → Jvm → ℕ → ℕ → OwnedCursor → PersistentRingBuffer → List Record → Type 0
  Batched fuel m ptr n owned b rs =
      (m' : Jvm) × (c : Cursor) × (read_batch fuel m ptr n true
        ≡ returned (some (map to_java (map stored (take n rs))), m'))
      × (box_at m'.cursors ptr ≡ some (record owned { cursor = c }))
      × AtFrames b c (drop n rs)

  -- `readBatch` of a `jint`, with the pointer of a live cursor of the current lap that has the
  -- records `rs` between it and the write position of a valid buffer: if the `jint` is a number
  -- `n` that is not negative, and the virtual machine answers each call with a success, Java gets
  -- the first `n` of them, or all if there are fewer, with their data, checksum, tag and
  -- timestamp, and the cursor behind the pointer then stands before the others; if it is negative,
  -- the process is aborted.
  pub java_read_batch-jint :
      (fuel : ℕ) (m : Jvm) (ptr n : ℕ) (owned : OwnedCursor) (b : PersistentRingBuffer)
      (rs : List Record)
      → ptr ≢ 0
      → box_at m.cursors ptr ≡ some owned
      → get_elem? m.library.globals.disks owned.buffer ≡ some b
      → AtFrames b owned.cursor rs
      → n < 2 ^ 32
      → ((n < 2 ^ 31) × Batched (suc fuel) m ptr n owned b rs)
        ⊎ ((2 ^ 31 ≤ n) × (read_batch (suc fuel) m ptr n true ≡ aborted))
  java_read_batch-jint fuel m ptr n owned b rs not_null alive on_disk h high =
      elim (dec_lt n (2 ^ 31)) [
        | yes small ↦
            inl
              (small, java_read_batch-frames fuel m ptr n owned b rs not_null alive on_disk h small)
        | no negative ↦
            let low : 2 ^ 31 ≤ n = omega (arith, negative) in
            inr
              (low, java_read_batch-negative (suc fuel) m ptr n true owned not_null alive low high)
      ]
