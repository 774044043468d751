-- ===== src/Disk/Persistent/Open.antt =====
-- `PersistentRingBuffer::new` of src/disk/persistent.rs: creating a buffer file and opening one.
use Prim.Native.String.{String}
use ring_buffer.Prelude.{
  ℕ, List, [], Option, none, some, not, ◌||◌, ◌==◌, if◌then◌else◌, length, replicate,
}
use ring_buffer.Bytes.{slice, copy_from_slice}
use ring_buffer.Platform.{Platform, add64}
use ring_buffer.Disk.ControlBlock
use ring_buffer.Disk.Outcome.{
  Outcome, ok, err, panic, undefined, unfinished, invalid_buffer, ◌>>=◌, ◌>>◌, or_panic, io_result,
}
use ring_buffer.Disk.Persistent.{PersistentRingBuffer}

-- The answers to the four calls that `new` makes of the operating system.
pub record OpenIo : Type 0 where
  pub opened : Option ℕ
  pub metadata : Option ℕ
  pub set_len : Option ℕ
  pub mapped : Option ℕ

-- What a call returned, and the file it left.
abbrev pub Opened : Type 0
Opened = Outcome PersistentRingBuffer × List ℕ

-- Go on with a file if the system's answer is a success.
abbrev pub and_then : Outcome (Unit {0}) → List ℕ → Opened → Opened
and_then (ok _) file next = next
and_then (err e) file next = (err e, file)
and_then panic file next = (panic, file)
and_then undefined file next = (undefined, file)
and_then unfinished file next = (unfinished, file)

module _ ⦃p : Platform⦄ where
  -- The new control block in place, or the panic of a file that is too short for it.
  unfoldable pub initialised : String → ℕ → List ℕ → Option (List ℕ) → Opened
  initialised path size file none = (panic, file)
  initialised path size file (some mmap) =
      (ok (record { path = path; mmap = mmap; control = ControlBlock.new size; size = size }), mmap)

  -- `new` on an empty file. `set_len` fills the file with zeros.
  unfoldable pub create : String → OpenIo → ℕ → Opened
  create path io size =
      let file = replicate (add64 size ControlBlock.block_size) 0 in
      and_then (io_result io.set_len) [] (
        and_then (io_result io.mapped) file (
          initialised path size file
            (copy_from_slice file 0 (ControlBlock.as_bytes (ControlBlock.new size)))))

  -- `new` on a file that has bytes in it; the size asked for plays no part.
  unfoldable pub open_existing : String → OpenIo → List ℕ → Outcome PersistentRingBuffer
  open_existing path io file = do
    io_result io.mapped
    control_bytes ← or_panic (slice file 0 ControlBlock.block_size)
    let control = ControlBlock.from_bytes control_bytes
    if not (control.magic == ControlBlock.magic_number) || not (ControlBlock.verify_crc control)
        then err invalid_buffer
        else ok (record { path = path; mmap = file; control = control; size = control.buffer_size })

  unfoldable pub new : String → OpenIo → List ℕ → ℕ → Opened
  new path io file size =
      and_then (io_result io.opened >> io_result io.metadata) file
        (if length file == 0 then create path io size else (open_existing path io file, file))
