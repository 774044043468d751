-- ===== src/Disk/Cursor/Interleaved/Calls.antt =====
-- What a call of another thread does to the records of a lap, while no write wraps.
use ring_buffer.Prelude.{ℕ, ◌+◌, ◌≤◌, ◌≡◌, refl, sym, subst, List, [], ◌∷◌, ◌++◌, append-nil, arith}
use ring_buffer.Platform.{Platform}
use ring_buffer.Memory.Record.{Record}
use ring_buffer.Disk.Persistent.{PersistentRingBuffer}
use ring_buffer.Disk.Persistent.Write.{frame_size, write_lem}
use ring_buffer.Disk.Persistent.Frames.{Frames, Frames-le}
use ring_buffer.Disk.Persistent.ReadAll.{moved, read_all-nothing, read_all-Frames}
use ring_buffer.Disk.Persistent.Lap.{
  Frames-stay, write_pos-stay, wrap_count-stay, Frames-moved, moved-fields,
}
use ring_buffer.Disk.Queue
use ring_buffer.Disk.Queue.{Call, writes, reads_all, resets, queue_step, needed, AllStorable}
use ring_buffer.Disk.Queue.Refine.{Holds, reset_read_position_lem}
use ring_buffer.Disk.Cursor.Interleaved.{written}

module _ ⦃p : Platform⦄ where
  -- What a call of another thread leaves of the lap.
  pub record Keeps (b b' : PersistentRingBuffer) (new : List Record) : Type 0 where
    pub same_lap : b'.control.wrap_count ≡ b.control.wrap_count
    pub frames :
        (pos : ℕ) (rs : List Record)
        → Frames b.mmap pos rs b.control.write_pos
        → Frames b'.mmap pos (rs ++ new) b'.control.write_pos

  same-Keeps : (b : PersistentRingBuffer) → Keeps b b []
  same-Keeps b = record { same_lap = refl; frames = λ pos rs f. rw append-nil f }

  moved-Keeps : (b : PersistentRingBuffer) (n : ℕ) → Keeps b (moved b n) []
  moved-Keeps b n =
      let m = moved-fields b n in
      record {
        same_lap = m.2;
        frames = λ pos rs f. rw append-nil (
            subst (Frames (moved b n).mmap pos rs) (sym m.1)
              (Frames-moved b n pos rs b.control.write_pos f));
      }

  pub call-Keeps :
      (b : PersistentRingBuffer) (q : List Record) (c : Call) (cs : List Call)
      → Holds b q
      → AllStorable (c ∷ cs)
      → b.control.write_pos + needed (c ∷ cs) ≤ b.size
      → Keeps b (Queue.step b c).1 (written c)
  unfolding Queue.step
  call-Keeps b q (writes r io) cs h s fits =
      let room : b.control.write_pos + frame_size r ≤ b.size = omega (arith, fits) in
      rw (write_lem b r io h.valid (omega (arith, s)) (omega arith)) (record {
        same_lap = wrap_count-stay b r h.valid room;
        frames = λ pos rs f.
            subst (Frames _ pos (rs ++ (r ∷ []))) (sym (write_pos-stay b r h.valid room))
              (Frames-stay b r pos rs h.valid s.0 room f);
      })
  call-Keeps b [] (reads_all io) cs h s fits = rw (read_all-nothing b io h.unread) (same-Keeps b)
  call-Keeps b (r ∷ q) (reads_all io) cs h s fits =
      rw
        (read_all-Frames b io (r ∷ q) h.valid (omega (arith, Frames-le b.mmap _ q _ h.unread.2))
          h.unread)
        (moved-Keeps b b.control.write_pos)
  call-Keeps b q (resets io) cs h s fits =
      rw (reset_read_position_lem b io h.valid) (moved-Keeps b b.control.write_pos)
