-- ===== src/Disk/Persistent/Passed.antt =====
-- `read_all` after a wrap: the records that it passes over.
use ring_buffer.Prelude.{
  ℕ, ◌+◌, ◌≤◌, ◌<◌, ◌≡◌, refl, List, [], ◌∷◌, Option, none, arith, ℕ_discrete,
}
use ring_buffer.Platform.{Platform}
use ring_buffer.Memory.Record.{Record}
use ring_buffer.Disk.Outcome.{ok}
use ring_buffer.Disk.Persistent.{PersistentRingBuffer, read_all}
use ring_buffer.Disk.Persistent.Valid.{IsValid}
use ring_buffer.Disk.Persistent.Write.{frame_size, after_write, write_lem, after_write-IsValid}
use ring_buffer.Disk.Persistent.ReadAll.{read_all-nothing}
use ring_buffer.Disk.Persistent.Lap.{write_pos-stay, write_pos-wrap, read_pos-after_write}
use ring_buffer.Disk.Persistent.Wrap.{write_all, read_all-behind}

module _ ⦃p : Platform⦄ where
  -- The bytes that the frames of the records take.
  abbrev pub frames_size : List (Record × Option ℕ) → ℕ
  frames_size [] = 0
  frames_size ((r, io) ∷ rs) = frame_size r + frames_size rs

  read_all-up_to :
      (b : PersistentRingBuffer)
      → IsValid b
      → b.control.write_pos ≤ b.control.read_pos
      → (read_all b none).0 ≡ ok []
  read_all-up_to b v le = elim (ℕ_discrete b.control.read_pos b.control.write_pos) [
    | yes e ↦ rw (read_all-nothing b none e) refl
    | no ne ↦ rw (read_all-behind b none v (omega arith)) refl
  ]

  write_all-below :
      (rs : List (Record × Option ℕ)) (b : PersistentRingBuffer)
      → IsValid b
      → b.control.read_pos ≤ b.size
      → b.control.write_pos + frames_size rs ≤ b.control.read_pos
      → (read_all (write_all b rs) none).0 ≡ ok []
  unfolding write_all
  write_all-below [] b v inside below = read_all-up_to b v (omega arith)
  write_all-below ((r, io) ∷ rs) b v inside below =
      let fits : b.control.write_pos + frame_size r ≤ b.size = omega arith in
      let start = read_pos-after_write b r in
      let end = write_pos-stay b r v fits in
      rw (write_lem b r io v (omega (arith, v.size_le)) (omega arith)) (
        write_all-below rs (after_write b r) (after_write-IsValid b r v (omega arith))
          (omega (arith, start)) (omega (arith, start, end)))

  -- After a write to a valid buffer that wraps, and further ones, whose frames together end at or
  -- below a read position inside the data section, `read_all` returns no record: those just
  -- written and all that were unread are passed over, until the write position is behind the read
  -- position again.
  pub read_all-passed_over :
      (b : PersistentRingBuffer) (r : Record) (io : Option ℕ) (rs : List (Record × Option ℕ))
      → IsValid b
      → b.control.read_pos ≤ b.size
      → b.size < b.control.write_pos + frame_size r
      → frame_size r + frames_size rs ≤ b.control.read_pos
      → (read_all (write_all b ((r, io) ∷ rs)) none).0 ≡ ok []
  unfolding write_all
  read_all-passed_over b r io rs v inside over below =
      let fits : frame_size r ≤ b.size = omega arith in
      let start = read_pos-after_write b r in
      let end = write_pos-wrap b r v fits over in
      rw (write_lem b r io v (omega (arith, v.size_le)) fits) (
        write_all-below rs (after_write b r) (after_write-IsValid b r v fits) (omega (arith, start))
          (omega (arith, start, end)))
