-- ===== src/Disk/Queue/Refine.antt =====
-- While no write wraps, the persistent buffer answers every call as the queue does.
use ring_buffer.Prelude.{
  ℕ, ◌+◌, ◌≤◌, ◌≡◌, refl, ap, ap₂, ◌∙◌, sym, subst₂, List, [], ◌∷◌, ◌++◌, Option, none, some, arith,
}
use ring_buffer.Platform.{Platform}
use ring_buffer.Memory.Record.{Record}
use ring_buffer.Disk.Outcome.{ok, ◌>>=◌, io_result}
use ring_buffer.Disk.Persistent.{PersistentRingBuffer, flushed, reset_read_position}
use ring_buffer.Disk.Persistent.Valid.{IsValid, moved-IsValid, save_control-in_bounds}
use ring_buffer.Disk.Persistent.Write.{frame_size, after_write, write_lem, after_write-IsValid}
use ring_buffer.Disk.Persistent.Frames.{IsStorable, Frames, Frames-le}
use ring_buffer.Disk.Persistent.ReadAll.{moved, read_all-Frames, read_all-nothing}
use ring_buffer.Disk.Persistent.Lap.{
  Frames-stay, write_pos-stay, read_pos-after_write, moved-fields,
}
use ring_buffer.Disk.Queue.{
  Call, writes, reads_all, resets, done, step, run, queue_step, queue_run, needed, AllStorable,
}

module _ ⦃p : Platform⦄ where
  -- The unread records stand between the read and the write position.
  pub record Holds (b : PersistentRingBuffer) (q : List Record) : Type 0 where
    pub valid : IsValid b
    pub unread : Frames b.mmap b.control.read_pos q b.control.write_pos

  io_result-tt : (io : Option ℕ) → (io_result io >>= λ _. ok tt) ≡ io_result io
  io_result-tt none = refl
  io_result-tt (some e) = refl

  pub after_write-Holds :
      (b : PersistentRingBuffer) (q : List Record) (r : Record)
      → Holds b q
      → IsStorable r
      → b.control.write_pos + frame_size r ≤ b.size
      → Holds (after_write b r) (q ++ (r ∷ []))
  after_write-Holds b q r h s fits = record {
    valid = after_write-IsValid b r h.valid (omega arith);
    unread =
        subst₂ (λ start end. Frames (after_write b r).mmap start (q ++ (r ∷ [])) end)
          (sym (read_pos-after_write b r)) (sym (write_pos-stay b r h.valid fits))
          (Frames-stay b r b.control.read_pos q h.valid s fits h.unread);
  }

  pub moved-Holds :
      (b : PersistentRingBuffer) (q : List Record)
      → Holds b q
      → Holds (moved b b.control.write_pos) []
  moved-Holds b q h = record {
    valid = moved-IsValid b b.control.write_pos h.valid (omega (arith, h.valid.write_pos_le));
    unread = let m = moved-fields b b.control.write_pos in m.0 ∙ sym m.1;
  }

  pub reset_read_position_lem :
      (b : PersistentRingBuffer) (io : Option ℕ)
      → IsValid b
      → reset_read_position b io ≡ (io_result io, moved b b.control.write_pos)
  unfolding reset_read_position flushed
  reset_read_position_lem b io v =
      rw
        (save_control-in_bounds b.mmap (record b.control { read_pos = b.control.write_pos })
          (omega (arith, v.mapped)))
        (ap₂ (λ o b'. (o, b')) (io_result-tt io) refl)

  -- What one call shows and leaves, in the buffer and in the queue.
  unfoldable pub Agrees : PersistentRingBuffer → List Record → Call → Type 0
  Agrees b q c =
      ((step b c).0 ≡ (queue_step q c).0)
      × Holds (step b c).1 (queue_step q c).1
      × ((step b c).1.size ≡ b.size)
      × ((step b c).1.control.write_pos + 0 ≡ b.control.write_pos + needed (c ∷ []))

  step-write :
      (b : PersistentRingBuffer) (q : List Record) (r : Record) (io : Option ℕ)
      → Holds b q
      → IsStorable r
      → b.control.write_pos + frame_size r ≤ b.size
      → Agrees b q (writes r io)
  unfolding Agrees step queue_step
  step-write b q r io h s fits =
      rw (write_lem b r io h.valid (omega (arith, s.length_lt)) (omega arith)) (
        ap done (io_result-tt io),
        after_write-Holds b q r h s fits,
        refl,
        omega (arith, write_pos-stay b r h.valid fits),
      )

  step-read :
      (b : PersistentRingBuffer) (q : List Record) (io : Option ℕ)
      → Holds b q
      → Agrees b q (reads_all io)
  unfolding Agrees step queue_step
  step-read b [] io h = rw (read_all-nothing b io h.unread) (refl, h, refl, omega arith)
  step-read b (r ∷ q) io h =
      rw
        (read_all-Frames b io (r ∷ q) h.valid (omega (arith, Frames-le b.mmap _ q _ h.unread.2))
          h.unread)
        (refl, moved-Holds b (r ∷ q) h, refl, omega (arith, moved-fields b b.control.write_pos))

  step-reset :
      (b : PersistentRingBuffer) (q : List Record) (io : Option ℕ)
      → Holds b q
      → Agrees b q (resets io)
  unfolding Agrees step queue_step
  step-reset b q io h =
      rw (reset_read_position_lem b io h.valid)
        (refl, moved-Holds b q h, refl, omega (arith, moved-fields b b.control.write_pos))

  pub step-Agrees :
      (b : PersistentRingBuffer) (q : List Record) (c : Call) (cs : List Call)
      → Holds b q
      → AllStorable (c ∷ cs)
      → b.control.write_pos + needed (c ∷ cs) ≤ b.size
      → Agrees b q c × AllStorable cs × (b.control.write_pos + needed (c ∷ []) + needed cs ≤ b.size)
  step-Agrees b q (writes r io) cs h s fits =
      (step-write b q r io h s.0 (omega arith), s.1, omega arith)
  step-Agrees b q (reads_all io) cs h s fits = (step-read b q io h, s, omega arith)
  step-Agrees b q (resets io) cs h s fits = (step-reset b q io h, s, omega arith)

  -- While no write wraps, the buffer is a queue. From a valid buffer whose unread records are `q`,
  -- a sequence of `write`, `read_all` and `reset_read_position` gets exactly the replies of the
  -- queue, if each record's length, timestamp and tag fit the header's fields and the frames of
  -- all its writes fit between the write position and the end of the data section: `read_all`
  -- returns the records written and not yet read, in order, or the error of its `flush`, and
  -- leaves none unread.
  pub run_refines :
      (cs : List Call) (b : PersistentRingBuffer) (q : List Record)
      → Holds b q
      → AllStorable cs
      → b.control.write_pos + needed cs ≤ b.size
      → run b cs ≡ queue_run q cs
  unfolding run queue_run Agrees
  run_refines [] b q h s fits = refl
  run_refines (c ∷ cs) b q h s fits =
      let (agrees, storable, room) = step-Agrees b q c cs h s fits in
      ap₂ ◌∷◌ agrees.0 (
        run_refines cs (step b c).1 (queue_step q c).1 agrees.1 storable
          (omega (arith, agrees, room)))
