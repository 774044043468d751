-- ===== src/Disk/Persistent/Wrap.antt =====
-- A write that wraps: which records stay readable from the start of the data section, and what the
-- shared read position still reaches.
use ring_buffer.Prelude.{
  ℕ, ◌+◌, ◌≤◌, ◌<◌, ◌≡◌, refl, ap, ◌∙◌, sym, subst, List, [], ◌∷◌, ◌++◌, Option, none, arith, ltb,
  if◌then◌else◌, dec_lt, lt→ltb, not_lt→ltb, ℕ_discrete,
}
use ring_buffer.Platform.{Platform}
use ring_buffer.Memory.Record.{Record}
use ring_buffer.Disk.Outcome.{ok, ◌>>=◌, io_result}
use ring_buffer.Disk.Persistent.{PersistentRingBuffer, write, read_all}
use ring_buffer.Disk.Persistent.Valid.{IsValid}
use ring_buffer.Disk.Persistent.Write.{
  IsVec, frame_size, after_write, write_lem, write-too_large, write-IsValid, after_write-IsValid,
}
use ring_buffer.Disk.Persistent.Frames.{IsStorable, Frames}
use ring_buffer.Disk.Persistent.ReadAll.{moved, read_all-eq, read_all-nothing, read_loop-done}
use ring_buffer.Disk.Persistent.Lap.{
  Frames-stay, Frames-wrap, write_pos-stay, write_pos-wrap, read_pos-after_write,
}

module _ ⦃p : Platform⦄ where
  -- A log by sizes alone: the bytes in use and the records of the current lap, oldest first. A record
  -- that is larger than the data section is refused; one that does not fit behind the others begins
  -- a new lap.
  abbrev pub Laps : Type 0
  Laps = ℕ × List Record

  unfoldable pub lap_write : ℕ → Laps → Record → Laps
  lap_write size (used, lap) r =
      if ltb size (frame_size r)
      then (used, lap)
      else if ltb size (used + frame_size r)
      then (frame_size r, r ∷ [])
      else (used + frame_size r, lap ++ (r ∷ []))

  unfoldable pub lap_write_all : ℕ → Laps → List Record → Laps
  lap_write_all size l [] = l
  lap_write_all size l (r ∷ rs) = lap_write_all size (lap_write size l r) rs

  -- The buffer after a sequence of writes.
  unfoldable pub write_all : PersistentRingBuffer → List (Record × Option ℕ) → PersistentRingBuffer
  write_all b [] = b
  write_all b ((r, io) ∷ rs) = write_all (write b r io).1 rs

  abbrev pub all_records : List (Record × Option ℕ) → List Record
  all_records [] = []
  all_records ((r, io) ∷ rs) = r ∷ all_records rs

  abbrev pub AllStorable : List (Record × Option ℕ) → Type 0
  AllStorable [] = Unit {0}
  AllStorable ((r, io) ∷ rs) = IsStorable r × AllStorable rs

  -- The records of the lap stand from the start of the data section up to the write position.
  pub record HoldsLap (b : PersistentRingBuffer) (l : Laps) : Type 0 where
    pub valid : IsValid b
    pub used : b.control.write_pos ≡ l.0
    pub lap : Frames b.mmap 0 l.1 b.control.write_pos

  stay-HoldsLap :
      (b : PersistentRingBuffer) (r : Record) (l : Laps)
      → HoldsLap b l
      → IsStorable r
      → b.control.write_pos + frame_size r ≤ b.size
      → IsValid (after_write b r)
      → HoldsLap (after_write b r) (l.0 + frame_size r, l.1 ++ (r ∷ []))
  stay-HoldsLap b r l h s fits v =
      let end = write_pos-stay b r h.valid fits in
      record {
        valid = v;
        used = end ∙ ap (λ n. n + frame_size r) h.used;
        lap =
            subst (Frames (after_write b r).mmap 0 (l.1 ++ (r ∷ []))) (sym end)
              (Frames-stay b r 0 l.1 h.valid s fits h.lap);
      }

  pub wrap-HoldsLap :
      (b : PersistentRingBuffer) (r : Record) (l : Laps)
      → HoldsLap b l
      → IsStorable r
      → frame_size r ≤ b.size
      → b.size < b.control.write_pos + frame_size r
      → IsValid (after_write b r)
      → HoldsLap (after_write b r) (frame_size r, r ∷ [])
  wrap-HoldsLap b r l h s fits over v =
      let end = write_pos-wrap b r h.valid fits over in
      record {
        valid = v;
        used = end;
        lap =
            subst (Frames (after_write b r).mmap 0 (r ∷ [])) (sym end)
              (Frames-wrap b r h.valid s fits over);
      }

  write-HoldsLap :
      (b : PersistentRingBuffer) (r : Record) (io : Option ℕ) (l : Laps)
      → HoldsLap b l
      → IsStorable r
      → HoldsLap (write b r io).1 (lap_write b.size l r)
  unfolding lap_write
  write-HoldsLap b r io l h s =
      let small : IsVec r = omega (arith, s.length_lt) in
      let v = write-IsValid b r io h.valid small in
      elim (dec_lt b.size (frame_size r)) [
        | yes large ↦ rw (lt→ltb _ _ large, write-too_large b r io small large) h
        | no fits ↦
            let w = write_lem b r io h.valid small (omega arith) in
            elim (dec_lt b.size (l.0 + frame_size r)) [
              | yes over ↦
                  rw (not_lt→ltb _ _ fits, lt→ltb _ _ over, w)
                    (wrap-HoldsLap b r l h s (omega arith) (omega (arith, h.used)) (rw w at v))
              | no room ↦
                  rw (not_lt→ltb _ _ fits, not_lt→ltb _ _ room, w)
                    (stay-HoldsLap b r l h s (omega (arith, h.used)) (rw w at v))
            ]
      ]

  size-write :
      (b : PersistentRingBuffer) (r : Record) (io : Option ℕ)
      → IsValid b
      → IsStorable r
      → (write b r io).1.size ≡ b.size
  size-write b r io v s =
      let small : IsVec r = omega (arith, s.length_lt) in
      elim (dec_lt b.size (frame_size r)) [
        | yes large ↦ rw (write-too_large b r io small large) refl
        | no fits ↦ rw (write_lem b r io v small (omega arith)) refl
      ]

  -- After any sequence of writes, with any number of wraps, of records whose length, timestamp and
  -- tag fit the header's fields, a buffer that held a lap of records from the start of its data
  -- section up to the write position is valid and holds the lap that the sizes alone determine: a
  -- record that is larger than the data section is left out, and one that does not fit behind the
  -- others begins a new lap.
  pub write_all_refines :
      (rs : List (Record × Option ℕ)) (b : PersistentRingBuffer) (l : Laps)
      → HoldsLap b l
      → AllStorable rs
      → HoldsLap (write_all b rs) (lap_write_all b.size l (all_records rs))
  unfolding write_all lap_write_all
  write_all_refines [] b l h s = h
  write_all_refines ((r, io) ∷ rs) b l h s =
      subst
        (λ n.
          HoldsLap (write_all (write b r io).1 rs)
            (lap_write_all n (lap_write b.size l r) (all_records rs)))
        (size-write b r io h.valid s.0)
        (write_all_refines rs (write b r io).1 (lap_write b.size l r)
          (write-HoldsLap b r io l h s.0) s.1)

  pub size-write_all :
      (rs : List (Record × Option ℕ)) (b : PersistentRingBuffer) (l : Laps)
      → HoldsLap b l
      → AllStorable rs
      → (write_all b rs).size ≡ b.size
  unfolding write_all
  size-write_all [] b l h s = refl
  size-write_all ((r, io) ∷ rs) b l h s =
      size-write_all rs (write b r io).1 (lap_write b.size l r) (write-HoldsLap b r io l h s.0) s.1
      ∙ size-write b r io h.valid s.0

  -- With the read position at or behind the write position `read_all` finds nothing, and stays there.
  pub read_all-behind :
      (b : PersistentRingBuffer) (io : Option ℕ)
      → IsValid b
      → b.control.write_pos < b.control.read_pos
      → read_all b io ≡ (io_result io >>= λ _. ok [], moved b b.control.read_pos)
  read_all-behind b io v behind =
      read_all-eq b io [] b.control.read_pos v (omega arith) (
        read_loop-done b b.control.write_pos b.control.write_pos b.control.read_pos []
          (omega arith))

  -- After a write to a valid buffer that wraps, of a record that fits and whose frame ends at or
  -- below the read position, `read_all` returns no record: the one just written and all that were
  -- unread are passed over.
  pub read_all-after_wrap :
      (b : PersistentRingBuffer) (r : Record) (io : Option ℕ)
      → IsValid b
      → IsVec r
      → frame_size r ≤ b.control.read_pos
      → frame_size r ≤ b.size
      → b.size < b.control.write_pos + frame_size r
      → (read_all (write b r io).1 none).0 ≡ ok []
  read_all-after_wrap b r io v small low fits over =
      let after = after_write b r in
      let start : after.control.read_pos ≡ b.control.read_pos = read_pos-after_write b r in
      let end : after.control.write_pos ≡ frame_size r = write_pos-wrap b r v fits over in
      rw (write_lem b r io v small fits)
        (elim (ℕ_discrete after.control.read_pos after.control.write_pos) [
          | yes e ↦ rw (read_all-nothing after none e) refl
          | no ne ↦
              rw
                (read_all-behind after none (after_write-IsValid b r v fits)
                  (omega (arith, start, end)))
                refl
        ])
