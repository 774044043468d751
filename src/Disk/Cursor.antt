-- ===== src/Disk/Cursor.antt =====
-- `Cursor` of src/disk/cursor.rs. Its `buffer` is a shared reference: here the buffer is an argument
-- of each method, in the state in which the call finds it.
pub mod Progress
pub mod Batch
pub mod Seek
pub mod Corrupt
pub mod Tail
pub mod Interleaved
pub mod Lapped
use ring_buffer.Prelude.{
  ℕ, zero, suc, ◌+◌, List, [], ◌∷◌, ◌++◌, Option, none, some, Bool, true, false, ◌&&◌, ◌||◌, ltb,
  leb, ◌==◌, if◌then◌else◌,
}
use ring_buffer.Platform.{Platform, add64, fits_vec}
use ring_buffer.Memory.RecordHeader
use ring_buffer.Memory.Record.{Record}
use ring_buffer.Disk.Header
use ring_buffer.Disk.Outcome.{Outcome, ok, err, panic, undefined, unfinished}
use ring_buffer.Disk.Persistent.{PersistentRingBuffer, control_block, read_at, reset_read_position}

pub record Position : Type 0 where
  pub offset : ℕ
  pub wrap_count : ℕ

-- `Position::begin`.
abbrev pub begin : Position
begin = record { offset = 0; wrap_count = 0 }

pub record Cursor : Type 0 where
  pub position : Position
  pub at_end : Bool

-- Both halves of a position are those of the write position.
unfoldable pub is_end : PersistentRingBuffer → Position → Bool
is_end b pos =
    let control = control_block b in
    (pos.offset == control.write_pos) && (pos.wrap_count == control.wrap_count)

unfoldable pub new : PersistentRingBuffer → Option Position → Cursor
new b (some pos) = record { position = pos; at_end = is_end b pos }
new b none =
    let control = control_block b in
    let pos : Position = record { offset = control.read_pos; wrap_count = control.wrap_count } in
    record { position = pos; at_end = is_end b pos }

unfoldable pub seek_to : PersistentRingBuffer → Cursor → Position → Cursor
seek_to b c pos =
    let control = control_block b in
    if ltb control.wrap_count pos.wrap_count
      || ((pos.wrap_count == control.wrap_count) && ltb control.write_pos pos.offset)
    then record {
      position = record { offset = control.write_pos; wrap_count = control.wrap_count };
      at_end = true;
    }
    else if ltb pos.wrap_count control.wrap_count
    then record {
      position = record { offset = 0; wrap_count = control.wrap_count };
      at_end = false;
    }
    else record { position = pos; at_end = pos.offset == control.write_pos }

unfoldable pub seek_to_end : PersistentRingBuffer → Cursor → Cursor
seek_to_end b c =
    let control = control_block b in
    record {
      position = record { offset = control.write_pos; wrap_count = control.wrap_count };
      at_end = true;
    }

-- The cursor after a record of `size` bytes.
unfoldable pub past_record : PersistentRingBuffer → Cursor → ℕ → Cursor
past_record b c size =
    let pos = record c.position { offset = add64 c.position.offset size } in
    record { position = pos; at_end = is_end b pos }

-- The cursor after a header's length in which no valid record begins.
unfoldable pub past_gap : PersistentRingBuffer → Cursor → Cursor
past_gap b c =
    let control = control_block b in
    let offset = add64 c.position.offset Header.header_size in
    record {
      position = record c.position { offset = offset };
      at_end = leb control.write_pos offset && leb control.wrap_count c.position.wrap_count;
    }

-- The end of a round of `next`, with what the call on itself does.
unfoldable pub after_read :
    (Cursor → Outcome (Option Record) × Cursor)
    → PersistentRingBuffer
    → Cursor
    → Outcome (Option (Record × ℕ))
    → Outcome (Option Record) × Cursor
after_read again b c (ok (some (r, size))) = (ok (some r), past_record b c size)
after_read again b c (ok none) =
    let c' = past_gap b c in let rest = again c' in if c'.at_end then (ok none, c') else rest
after_read again b c (err e) = (err e, c)
after_read again b c panic = (panic, c)
after_read again b c undefined = (undefined, c)
after_read again b c unfinished = (unfinished, c)

-- `size_of::<Record>()`: the header, and the three words of a `Vec`.
abbrev pub size_of_record : ℕ
size_of_record = RecordHeader.header_size + 24

module _ ⦃p : Platform⦄ where
  -- `next` calls itself behind a gap; the fuel counts the calls.
  unfoldable pub next : ℕ → PersistentRingBuffer → Cursor → Outcome (Option Record) × Cursor
  next zero b c = (unfinished, c)
  next (suc fuel) b c =
      let rest = after_read (λ c'. next fuel b c') b c (read_at b c.position.offset) in
      if c.at_end then (ok none, c) else rest

  -- The loop of `read_batch`, with the rounds after it.
  unfoldable pub batch_round :
      (List Record → Cursor → Outcome (List Record) × Cursor)
      → List Record
      → Outcome (Option Record) × Cursor
      → Outcome (List Record) × Cursor
  batch_round rest records (ok (some r), c) = rest (records ++ (r ∷ [])) c
  batch_round rest records (ok none, c) = (ok records, c)
  batch_round rest records (err e, c) = (err e, c)
  batch_round rest records (panic, c) = (panic, c)
  batch_round rest records (undefined, c) = (undefined, c)
  batch_round rest records (unfinished, c) = (unfinished, c)

  unfoldable pub batch_loop :
      ℕ → PersistentRingBuffer → ℕ → List Record → Cursor → Outcome (List Record) × Cursor
  batch_loop fuel b zero records c = (ok records, c)
  batch_loop fuel b (suc left) records c =
      batch_round (λ rs c'. batch_loop fuel b left rs c') records (next fuel b c)

  -- `Vec::with_capacity(max_count)` comes first: it panics on more than `isize::MAX` bytes.
  unfoldable pub read_batch : ℕ → PersistentRingBuffer → Cursor → ℕ → Outcome (List Record) × Cursor
  read_batch fuel b c max_count =
      let batch = batch_loop fuel b max_count [] c in
      if fits_vec max_count size_of_record then batch else (panic, c)

  -- The copy of the control block that `commit` changes is dropped; `reset_read_position` is what
  -- changes the buffer.
  unfoldable pub commit :
      PersistentRingBuffer → Cursor → Option ℕ → Outcome (Unit {0}) × PersistentRingBuffer
  commit b c io =
      let control = control_block b in
      if (c.position.wrap_count == control.wrap_count)
        && (ltb control.read_pos c.position.offset && leb c.position.offset control.write_pos)
      then reset_read_position b io
      else (ok tt, b)
