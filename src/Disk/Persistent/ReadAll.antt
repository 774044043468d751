-- ===== src/Disk/Persistent/ReadAll.antt =====
-- `PersistentRingBuffer::read_all`: its loop ends, and it returns the records between the positions.
use ring_buffer.Prelude.{
  ℕ, zero, suc, ◌+◌, ◌≤◌, ◌<◌, ◌≡◌, ◌≢◌, refl, ◌∙◌, List, [], ◌∷◌, ◌++◌, map, append-nil,
  append_assoc, Option, none, some, arith, false, dec_lt, lt→ltb, not_lt→ltb, ◌==◌, ==_iff,
  ℕ_discrete,
}
use ring_buffer.Platform.{Platform, add64}
use ring_buffer.Memory.Record.{Record}
use ring_buffer.Disk.ControlBlock
use ring_buffer.Disk.ControlBlock.{ControlBlock}
use ring_buffer.Disk.Outcome.{
  Outcome, PersistentError, ok, err, panic, undefined, unfinished, invalid_record, ◌>>=◌, io_result,
  Returns, io_result-Returns,
}
use ring_buffer.Disk.Persistent.{
  PersistentRingBuffer, flushed, read_at, advance, read_loop, read_all,
}
use ring_buffer.Disk.Persistent.Valid.{
  IsValid, max_size, saved_map, save_control-in_bounds, moved-IsValid,
}
use ring_buffer.Disk.Persistent.Write.{frame_size}
use ring_buffer.Disk.Persistent.Frames.{Frames, Frames-le}
use ring_buffer.Disk.Persistent.Read.{stored, read_at-frame, ReadBounds, read_at-bounds}

module _ ⦃p : Platform⦄ where
  pub read_loop-done :
      (b : PersistentRingBuffer) (write_pos fuel pos : ℕ) (out : List Record)
      → ¬ (pos < write_pos)
      → read_loop b write_pos fuel pos out ≡ ok (out, pos)
  unfolding read_loop
  read_loop-done b write_pos zero pos out h = rw (not_lt→ltb pos write_pos h) refl
  read_loop-done b write_pos (suc fuel) pos out h = rw (not_lt→ltb pos write_pos h) refl

  read_loop-step :
      (b : PersistentRingBuffer) (write_pos fuel pos : ℕ) (out : List Record)
      → pos < write_pos
      → read_loop b write_pos (suc fuel) pos out
        ≡ (read_at b pos >>= advance (read_loop b write_pos fuel) pos out)
  unfolding read_loop
  read_loop-step b write_pos fuel pos out h = rw (lt→ltb pos write_pos h) refl

  -- With fuel for the bytes that are left, the loop returns the records that stand there.
  read_loop-Frames :
      (b : PersistentRingBuffer) (write_pos fuel pos : ℕ) (rs out : List Record)
      → IsValid b
      → write_pos ≤ b.size
      → write_pos ≤ pos + fuel
      → Frames b.mmap pos rs write_pos
      → read_loop b write_pos fuel pos out ≡ ok (out ++ map stored rs, write_pos)
  unfolding read_loop
  read_loop-Frames b write_pos fuel pos [] out v le enough f =
      read_loop-done b write_pos fuel pos out (omega arith) ∙ rw (append-nil, f) refl
  read_loop-Frames b write_pos zero pos (r ∷ rs) out v le enough f =
      absurd (omega (arith, Frames-le b.mmap (pos + frame_size r) rs write_pos f.2))
  read_loop-Frames b write_pos (suc fuel) pos (r ∷ rs) out v le enough f =
      let end = Frames-le b.mmap (pos + frame_size r) rs write_pos f.2 in
      let step : add64 pos (frame_size r) ≡ pos + frame_size r = omega (arith, v.size_le) in
      rw
        (
          lt→ltb pos write_pos (omega arith),
          read_at-frame b pos r v (omega arith) f.0 f.1,
          step,
          read_loop-Frames b write_pos fuel (pos + frame_size r) rs (out ++ (stored r ∷ [])) v le
              (omega arith) f.2,
        )
        (rw append_assoc refl)

  -- The buffer with its read position moved.
  abbrev pub moved : PersistentRingBuffer → ℕ → PersistentRingBuffer
  moved b n = record b {
    mmap = saved_map b.mmap (record b.control { read_pos = n });
    control = ControlBlock.update_crc (record b.control { read_pos = n });
  }

  pub read_all-eq :
      (b : PersistentRingBuffer) (io : Option ℕ) (rs : List Record) (n : ℕ)
      → IsValid b
      → b.control.read_pos ≢ b.control.write_pos
      → read_loop b b.control.write_pos b.control.write_pos b.control.read_pos [] ≡ ok (rs, n)
      → read_all b io ≡ (io_result io >>= λ _. ok rs, moved b n)
  unfolding read_all flushed
  read_all-eq b io rs n v ne e =
      let unequal : (b.control.read_pos == b.control.write_pos) ≡ false = ground arith in
      let save =
        save_control-in_bounds b.mmap (record b.control { read_pos = n })
          (omega (arith, v.mapped)) in
      rw (unequal, e, save) refl

  pub read_all-Frames :
      (b : PersistentRingBuffer) (io : Option ℕ) (rs : List Record)
      → IsValid b
      → b.control.read_pos ≢ b.control.write_pos
      → Frames b.mmap b.control.read_pos rs b.control.write_pos
      → read_all b io ≡ (io_result io >>= λ _. ok (map stored rs), moved b b.control.write_pos)
  read_all-Frames b io rs v ne f = read_all-eq b io (map stored rs) b.control.write_pos v ne (
      read_loop-Frames b b.control.write_pos b.control.write_pos b.control.read_pos rs [] v
        v.write_pos_le (omega arith) f)

  pub read_all-nothing :
      (b : PersistentRingBuffer) (io : Option ℕ)
      → b.control.read_pos ≡ b.control.write_pos
      → read_all b io ≡ (ok [], b)
  unfolding read_all
  read_all-nothing b io e = rw ((==_iff _ _).1 e) refl

  -- On any content of the file the loop ends within its fuel: what it returns is a list of records
  -- with a position that is not before the write position, or a bad checksum.
  abbrev pub Finishes : PersistentRingBuffer → ℕ → Outcome (List Record × ℕ) → Type 0
  Finishes b write_pos (ok (rs, n)) = (write_pos ≤ n) × (n ≤ b.size + 24)
  Finishes b write_pos (err e) = e ≡ invalid_record
  Finishes b write_pos panic = ⊥
  Finishes b write_pos undefined = ⊥
  Finishes b write_pos unfinished = ⊥

  -- One round, if the rounds after it finish wherever they start.
  round-Finishes :
      (b : PersistentRingBuffer) (write_pos fuel pos : ℕ) (out : List Record)
      (again : ℕ → List Record → Outcome (List Record × ℕ))
      → b.size ≤ max_size
      → pos < b.size
      → write_pos ≤ pos + suc fuel
      → ((next : ℕ) (rs : List Record)
          → next ≤ b.size + 24
          → write_pos ≤ next + fuel
          → Finishes b write_pos (again next rs))
      → (o : Outcome (Option (Record × ℕ))) → ReadBounds b pos o
      → Finishes b write_pos (o >>= advance again pos out)
  round-Finishes b write_pos fuel pos out again small inside enough rest (ok none) h =
      rest (add64 pos 24) out (omega arith) (omega arith)
  round-Finishes b write_pos fuel pos out again small inside enough rest (ok (some (r, n))) h =
      rest (add64 pos n) (out ++ (r ∷ [])) (omega arith) (omega arith)
  round-Finishes b write_pos fuel pos out again small inside enough rest (err e) h = h
  round-Finishes b write_pos fuel pos out again small inside enough rest panic h = h
  round-Finishes b write_pos fuel pos out again small inside enough rest undefined h = h
  round-Finishes b write_pos fuel pos out again small inside enough rest unfinished h = h

  read_loop-Finishes :
      (b : PersistentRingBuffer) (write_pos fuel pos : ℕ) (out : List Record)
      → IsValid b
      → write_pos ≤ b.size
      → pos ≤ b.size + 24
      → write_pos ≤ pos + fuel
      → Finishes b write_pos (read_loop b write_pos fuel pos out)
  read_loop-Finishes b write_pos zero pos out v le inside enough =
      rw (read_loop-done b write_pos zero pos out (omega arith)) (omega arith)
  read_loop-Finishes b write_pos (suc fuel) pos out v le inside enough =
      elim (dec_lt pos write_pos) [
        | no done ↦ rw (read_loop-done b write_pos (suc fuel) pos out done) (omega arith)
        | yes more ↦ rw (read_loop-step b write_pos fuel pos out more) (
            round-Finishes b write_pos fuel pos out (read_loop b write_pos fuel) v.size_le
              (omega arith) enough (λ next rs. read_loop-Finishes b write_pos fuel next rs v le)
              (read_at b pos) (read_at-bounds b pos v))
      ]

  read_all-err :
      (b : PersistentRingBuffer) (io : Option ℕ) (e : PersistentError)
      → b.control.read_pos ≢ b.control.write_pos
      → read_loop b b.control.write_pos b.control.write_pos b.control.read_pos [] ≡ err e
      → read_all b io ≡ (err e, b)
  unfolding read_all flushed
  read_all-err b io e ne eq =
      let unequal : (b.control.read_pos == b.control.write_pos) ≡ false = ground arith in
      rw (unequal, eq) refl

  abbrev pub Sound : Outcome (List Record) × PersistentRingBuffer → Type 0
  Sound step = Returns (step.0) × IsValid (step.1)

  read_all-Sound :
      (b : PersistentRingBuffer) (io : Option ℕ) (o : Outcome (List Record × ℕ))
      → IsValid b
      → b.control.read_pos ≢ b.control.write_pos
      → read_loop b b.control.write_pos b.control.write_pos b.control.read_pos [] ≡ o
      → Finishes b b.control.write_pos o
      → Sound (read_all b io)
  read_all-Sound b io (ok (rs, n)) v ne e h =
      rw (read_all-eq b io rs n v ne e) (io_result-Returns io rs, moved-IsValid b n v h.1)
  read_all-Sound b io (err x) v ne e h = rw (read_all-err b io x ne e) (tt, v)
  read_all-Sound b io panic v ne e h = absurd h
  read_all-Sound b io undefined v ne e h = absurd h
  read_all-Sound b io unfinished v ne e h = absurd h

  -- On a valid buffer, whatever bytes its data section has, `read_all` returns a result or an
  -- error, with as much fuel as the write position: it neither panics nor runs on, and the buffer
  -- that it leaves is valid.
  pub read_all-total :
      (b : PersistentRingBuffer) (io : Option ℕ)
      → IsValid b
      → Returns (read_all b io).0 × IsValid (read_all b io).1
  read_all-total b io v = elim (ℕ_discrete b.control.read_pos b.control.write_pos) [
    | yes e ↦ rw (read_all-nothing b io e) (tt, v)
    | no ne ↦ read_all-Sound b io _ v ne refl (
        read_loop-Finishes b b.control.write_pos b.control.write_pos b.control.read_pos [] v
          v.write_pos_le v.read_pos_le (omega arith))
  ]
