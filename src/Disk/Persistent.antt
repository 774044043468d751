-- ===== src/Disk/Persistent.antt =====
-- `PersistentRingBuffer` of src/disk/persistent.rs. `mmap` is the mapped file: the control block in
-- its first bytes, then the data section. A method that holds a lock for its whole body is one
-- step; it returns its result and the buffer that it leaves. The operating system's answer to a
-- `flush` is an argument. `write_lock` holds no data.
pub mod Lap
pub mod Open
pub mod Frames
pub mod Read
pub mod ReadAll
pub mod Valid
pub mod Unmapped
pub mod Crash
pub mod Opening
pub mod Passed
pub mod Above
pub mod Truncated
pub mod Wrap
pub mod Write
use Prim.Native.String.{String}
use ring_buffer.Prelude.{
  ℕ, zero, suc, List, [], ◌∷◌, ◌++◌, Option, none, some, not, ltb, leb, ◌==◌, if◌then◌else◌, length,
}
use ring_buffer.Bytes.{slice, copy_from_slice}
use ring_buffer.Platform.{Platform, add64, as_u32}
use ring_buffer.Memory.Record.{Record}
use ring_buffer.Disk.ControlBlock
use ring_buffer.Disk.ControlBlock.{ControlBlock}
use ring_buffer.Disk.Header
use ring_buffer.Disk.Header.{Header}
use ring_buffer.Disk.Outcome.{
  Outcome, ok, err, panic, undefined, unfinished, invalid_record, ◌>>=◌, or_panic, io_result,
}

pub record PersistentRingBuffer : Type 0 where
  pub path : String
  pub mmap : List ℕ
  pub control : ControlBlock
  pub size : ℕ

-- `control_block`: the copy in memory, not the one in the file.
abbrev pub control_block : PersistentRingBuffer → ControlBlock
control_block b = b.control

-- What a call returns, and the buffer that it leaves.
abbrev pub Step : Type 0 → Type 0
Step A = Outcome A × PersistentRingBuffer

-- The end of a method that has filled the map and the control block: the call of `flush`. The buffer
-- behind a panic stands for no state of the program, which may have changed the map and the control
-- block before it: the lock of the map is then poisoned, and a later call that takes it panics.
unfoldable pub flushed {ℓ} :
    {A : Type ℓ}
    → PersistentRingBuffer
    → Option ℕ
    → Outcome (A × List ℕ × ControlBlock)
    → Outcome A × PersistentRingBuffer
flushed b io (ok (a, mmap, control)) =
    (io_result io >>= λ _. ok a, record b { mmap = mmap; control = control })
flushed b io (err e) = (err e, b)
flushed b io panic = (panic, b)
flushed b io undefined = (undefined, b)
flushed b io unfinished = (unfinished, b)

module _ ⦃p : Platform⦄ where
  -- The header that `write` makes for a record.
  unfoldable pub header_for : Record → Header
  header_for r =
      Header.update_crc (Header.new (as_u32 (length r.bytes)) r.header.timestamp_us r.header.tag)
        r.bytes

  -- The control block after the wrap test.
  unfoldable pub wrapped : PersistentRingBuffer → ℕ → ControlBlock
  wrapped b total_size =
      let control = b.control in
      let data_start = add64 ControlBlock.block_size control.write_pos in
      if ltb (add64 ControlBlock.block_size b.size) (add64 data_start total_size)
      then record control { write_pos = 0; wrap_count = add64 control.wrap_count 1 }
      else control

  -- A control block with its checksum brought up to date, written over the first bytes.
  unfoldable pub save_control : List ℕ → ControlBlock → Outcome (List ℕ × ControlBlock)
  save_control mmap control = do
    let control' = ControlBlock.update_crc control
    mmap' ← or_panic (copy_from_slice mmap 0 (ControlBlock.as_bytes control'))
    ok (mmap', control')

  -- Header, data and control block, in this order.
  unfoldable pub store :
      List ℕ → ControlBlock → Record → ℕ → Outcome (Unit {0} × List ℕ × ControlBlock)
  store mmap control r total_size = do
    let header_pos = add64 ControlBlock.block_size control.write_pos
    with_header ← or_panic (copy_from_slice mmap header_pos (Header.as_bytes (header_for r)))
    let data_pos = add64 header_pos Header.header_size
    with_data ← or_panic (copy_from_slice with_header data_pos r.bytes)
    saved ←
        save_control with_data (record control { write_pos = add64 control.write_pos total_size })
    ok (tt, saved.0, saved.1)

  unfoldable pub write : PersistentRingBuffer → Record → Option ℕ → Step (Unit {0})
  write b r io =
      let total_size = add64 Header.header_size (length r.bytes) in
      if ltb b.size total_size
      then (err invalid_record, b)
      else flushed b io (store b.mmap (wrapped b total_size) r total_size)

  -- The record of a header and its data, once the checksum is verified.
  unfoldable pub checked : Header → List ℕ → Outcome (Option (Record × ℕ))
  checked header bytes =
      if not (Header.verify_crc header bytes)
      then err invalid_record
      else ok (
          some (
            record {
              header = record {
                size = header.size;
                crc32 = header.crc32;
                timestamp_us = header.timestamp_us;
                tag = header.tag;
              };
              bytes = bytes;
            },
            add64 Header.header_size header.size,
          ))

  -- The data behind a header that stands at `abs_pos`.
  unfoldable pub read_data : List ℕ → ℕ → Header → Outcome (Option (Record × ℕ))
  read_data mmap abs_pos header =
      let data_pos = add64 abs_pos Header.header_size in
      if not (Header.is_valid header)
      then ok none
      else if ltb (length mmap) (add64 data_pos header.size)
      then ok none
      else or_panic (slice mmap data_pos header.size) >>= checked header

  unfoldable pub read_at : PersistentRingBuffer → ℕ → Outcome (Option (Record × ℕ))
  read_at b position =
      let abs_pos = add64 ControlBlock.block_size position in
      if leb b.size position
      then ok none
      else if ltb (length b.mmap) (add64 abs_pos Header.header_size)
      then ok none
      else or_panic (slice b.mmap abs_pos Header.header_size) >>= λ bs.
          read_data b.mmap abs_pos (Header.from_bytes bs)

  -- One round of the loop of `read_all`, with what the rounds after it do.
  abbrev pub advance {ℓ} :
      {A : Type ℓ} → (ℕ → List Record → A) → ℕ → List Record → Option (Record × ℕ) → A
  advance again current_pos records none = again (add64 current_pos Header.header_size) records
  advance again current_pos records (some (r, size)) =
      again (add64 current_pos size) (records ++ (r ∷ []))

  -- `while current_pos < write_pos`, on fuel.
  unfoldable pub read_loop :
      PersistentRingBuffer → ℕ → ℕ → ℕ → List Record → Outcome (List Record × ℕ)
  read_loop b write_pos zero current_pos records =
      if ltb current_pos write_pos then unfinished else ok (records, current_pos)
  read_loop b write_pos (suc fuel) current_pos records =
      let next =
        read_at b current_pos
        >>= advance (λ pos out. read_loop b write_pos fuel pos out) current_pos records in
      if ltb current_pos write_pos then next else ok (records, current_pos)

  -- Each round gains 24 bytes at least, so `write_pos` rounds are enough.
  unfoldable pub read_all : PersistentRingBuffer → Option ℕ → Step (List Record)
  read_all b io =
      if b.control.read_pos == b.control.write_pos
      then (ok [], b)
      else flushed b io do
        (records, pos) ← read_loop b b.control.write_pos b.control.write_pos b.control.read_pos []
        saved ← save_control b.mmap (record b.control { read_pos = pos })
        ok (records, saved.0, saved.1)

  unfoldable pub reset_read_position : PersistentRingBuffer → Option ℕ → Step (Unit {0})
  reset_read_position b io = flushed b io do
    saved ← save_control b.mmap (record b.control { read_pos = b.control.write_pos })
    ok (tt, saved.0, saved.1)

  unfoldable pub flush : PersistentRingBuffer → Option ℕ → Step (Unit {0})
  flush b io = (io_result io, b)
