-- ===== src/Bindings/Jni/Large.antt =====
-- `write` of more data than a slot has room for.
use ring_buffer.Prelude.{
  ℕ, suc, ◌+◌, ◌^◌, ◌<◌, ◌≡◌, refl, List, some, Bool, false, arith, length, leb, get_elem?,
  not_le→leb,
}
use ring_buffer.Platform.{Platform, add64}
use ring_buffer.Memory.Record
use ring_buffer.Memory.Run
use ring_buffer.Memory.Volatile
use ring_buffer.Memory.Volatile.{VolatileRingBuffer}
use ring_buffer.Memory.Volatile.Write
use ring_buffer.Globals
use ring_buffer.Globals.{get_memory_buffer, get_or_init}
use ring_buffer.Bindings.Jni.{aborted, Jvm, native, java_write}

module _ ⦃p : Platform⦄ where
  reserve-too_large :
      (fuel : ℕ) (b : VolatileRingBuffer) (size : ℕ) (block : Bool)
      → b.slot_size < size + 24
      → size < 2 ^ 63
      → Volatile.reserve (suc fuel) b size block ≡ Run.panic
  unfolding Volatile.reserve
  reserve-too_large fuel b size block large small =
      let total : add64 size 24 ≡ size + 24 = omega (arith, small) in
      let refused : leb (size + 24) b.slot_size ≡ false =
        not_le→leb (size + 24) b.slot_size (omega (arith, large)) in
      rw (total, refused) refl

  -- When the global volatile buffer is set, Java's `write` of an array of bytes, of fewer than
  -- 2^63, that does not fit one of its slots together with the header of 24 bytes aborts the
  -- process: it neither returns false nor puts the record into the overflow queue.
  pub java_write-too_large :
      (m : Jvm) (now tag at : ℕ) (bytes : List ℕ) (b : VolatileRingBuffer) (signal : Bool)
      → m.library.globals.volatile_buffer ≡ some at
      → get_elem? m.library.globals.buffers at ≡ some (b, signal)
      → b.slot_size < length bytes + 24
      → length bytes < 2 ^ 63
      → java_write m now (some bytes) tag ≡ aborted
  unfolding java_write native Globals.write get_memory_buffer get_or_init Write.write Record.new
  java_write-too_large m now tag at bytes b signal cell present large small =
      rw (cell, present, reserve-too_large 0 b (length bytes) false large small) refl
