-- ===== src/Disk/Cursor/Interleaved/Follows.antt =====
-- The records ahead of the cursor, under each event.
use ring_buffer.Prelude.{
  ℕ, ◌+◌, ◌≤◌, ◌≡◌, refl, ap, ◌∙◌, sym, subst, List, [], ◌∷◌, ◌++◌, append_assoc, Option, none,
  some, Bool, true, false, arith, if-of_true, if-of_false,
}
use ring_buffer.Platform.{Platform}
use ring_buffer.Memory.Record.{Record}
use ring_buffer.Disk.Outcome.{Outcome, ok}
use ring_buffer.Disk.Persistent.{read_at}
use ring_buffer.Disk.Persistent.Write.{frame_size}
use ring_buffer.Disk.Persistent.Frames.{Frames, Frames-le}
use ring_buffer.Disk.Persistent.Read.{stored, read_at-frame}
use ring_buffer.Disk.Queue.{Call, queue_step, needed, AllStorable}
use ring_buffer.Disk.Queue.Refine.{Holds, Agrees, step-Agrees}
use ring_buffer.Disk.Cursor.{after_read}
use ring_buffer.Disk.Cursor.Seek.{seek_to-AtFrames}
use ring_buffer.Disk.Cursor.Batch.{is_nil, past_record-Frames}
use ring_buffer.Disk.Cursor.Interleaved.{
  State, calls, next_part, seek_part, step, written, returned,
}
use ring_buffer.Disk.Cursor.Interleaved.Calls.{call-Keeps}

is_nil-append {ℓ} : {A : Type ℓ} (xs ys : List A) → is_nil xs ≡ false → is_nil (xs ++ ys) ≡ false
is_nil-append [] ys h = absurd (ground (arith, h))
is_nil-append (x ∷ xs) ys h = refl

module _ ⦃p : Platform⦄ where
  returned-append : (rs rs' : List Record) → returned (rs ++ rs') ≡ returned rs ++ returned rs'
  returned-append [] rs' = refl
  returned-append (r ∷ rs) rs' = ap (λ l. ok (some (stored r)) ∷ l) (returned-append rs rs')

  -- A `next` under way has the first of the records ahead.
  abbrev pub Reading : Option (Outcome (Option (Record × ℕ))) → List Record → Type 0
  Reading none rs = Unit {0}
  Reading (some o) [] = ⊥
  Reading (some o) (r ∷ rs) = o ≡ ok (some (stored r, frame_size r))

  Reading-append :
      (reading : Option (Outcome (Option (Record × ℕ)))) (rs rs' : List Record)
      → Reading reading rs
      → Reading reading (rs ++ rs')
  Reading-append none rs rs' h = tt
  Reading-append (some o) [] rs' h = absurd h
  Reading-append (some o) (r ∷ rs) rs' h = h

  -- `q` is unread, `ahead` is before the cursor, and `all` has been written.
  pub record Follows (s : State) (q ahead all : List Record) : Type 0 where
    pub holds : Holds s.buffer q
    pub same_lap : s.cursor.position.wrap_count ≡ s.buffer.control.wrap_count
    pub frames : Frames s.buffer.mmap s.cursor.position.offset ahead s.buffer.control.write_pos
    pub going : s.cursor.at_end ≡ false → is_nil ahead ≡ false
    pub reading : Reading s.reading ahead
    pub answers : s.answers ++ returned ahead ≡ returned all

  pub call-Follows :
      (s : State) (q ahead all : List Record) (c : Call) (cs : List Call)
      → Follows s q ahead all
      → AllStorable (c ∷ cs)
      → s.buffer.control.write_pos + needed (c ∷ cs) ≤ s.buffer.size
      → Follows (step s (calls c)) (queue_step q c).1 (ahead ++ written c) (all ++ written c)
  unfolding step Agrees
  call-Follows s q ahead all c cs f storable fits =
      let agrees = step-Agrees s.buffer q c cs f.holds storable fits in
      let kept = call-Keeps s.buffer q c cs f.holds storable fits in
      record {
        holds = agrees.0.1;
        same_lap = f.same_lap ∙ sym kept.same_lap;
        frames = kept.frames s.cursor.position.offset ahead f.frames;
        going = λ h. is_nil-append ahead (written c) (f.going h);
        reading = Reading-append s.reading ahead (written c) f.reading;
        answers =
            rw (returned-append ahead (written c), returned-append all (written c))
              (sym (append_assoc s.answers _ _) ∙ ap (λ l. l ++ returned (written c)) f.answers);
      }

  -- `read_at` at the cursor, if the cursor does not take itself to be at its end.
  read-Follows :
      (s : State) (q ahead all : List Record)
      → Follows s q ahead all
      → s.cursor.at_end ≡ false
      → Follows
          (record s { reading = some (read_at s.buffer s.cursor.position.offset) })
          q
          ahead
          all
  read-Follows s q [] all f going = absurd (ground (arith, f.going going))
  read-Follows s q (r ∷ ahead) all f going =
      let before =
        Frames-le s.buffer.mmap (s.cursor.position.offset + frame_size r) ahead
          s.buffer.control.write_pos f.frames.2 in
      record {
        holds = f.holds;
        same_lap = f.same_lap;
        frames = f.frames;
        going = f.going;
        reading =
            read_at-frame s.buffer s.cursor.position.offset r f.holds.valid
              (omega (arith, before, f.holds.valid)) f.frames.0 f.frames.1;
        answers = f.answers;
      }

  next_part-at_end : (s : State) → s.cursor.at_end ≡ true → next_part s none ≡ s
  unfolding next_part
  next_part-at_end s at = if-of_true _ _ at

  next_part-going :
      (s : State)
      → s.cursor.at_end ≡ false
      → next_part s none ≡ record s { reading = some (read_at s.buffer s.cursor.position.offset) }
  unfolding next_part
  next_part-going s going = if-of_false _ _ going

  -- The control block behind a `read_at`.
  answer-Follows :
      (s : State) (o : Outcome (Option (Record × ℕ))) (q ahead all : List Record)
      → Follows s q ahead all
      → s.reading ≡ some o
      → (ahead' : List Record) × Follows (next_part s (some o)) q ahead' all
  unfolding next_part after_read
  answer-Follows s o q ahead all f e =
      first ahead f.frames (subst (λ reading. Reading reading ahead) e f.reading) f.answers
    where
      first :
          (ahead : List Record)
          → Frames s.buffer.mmap s.cursor.position.offset ahead s.buffer.control.write_pos
          → Reading (some o) ahead
          → s.answers ++ returned ahead ≡ returned all
          → (ahead' : List Record) × Follows (next_part s (some o)) q ahead' all
      first [] frames h answers = absurd h
      first (r ∷ ahead) frames h answers =
          let past = past_record-Frames s.buffer s.cursor r ahead f.holds.valid f.same_lap frames in
          (
            ahead,
            rw h (record {
              holds = f.holds;
              same_lap = past.same_lap;
              frames = past.ahead;
              going = λ going. sym past.end ∙ going;
              reading = tt;
              answers = append_assoc s.answers (_ ∷ []) _ ∙ answers;
            }),
          )

  seek-Follows :
      (s : State) (q ahead all : List Record)
      → Follows s q ahead all
      → s.reading ≡ none
      → Follows (seek_part s none) q ahead all
  unfolding seek_part
  seek-Follows s q ahead all f e =
      let sought = seek_to-AtFrames s.buffer s.cursor ahead f.holds.valid f.same_lap f.frames in
      record {
        holds = f.holds;
        same_lap = sought.same_lap;
        frames = sought.ahead;
        going = λ going. sym sought.end ∙ going;
        reading = subst (λ reading. Reading reading ahead) (sym e) tt;
        answers = f.answers;
      }

  pub buffer-next_part :
      (s : State) (reading : Option (Outcome (Option (Record × ℕ))))
      → (next_part s reading).buffer ≡ s.buffer
  unfolding next_part
  buffer-next_part s none = ground arith
  buffer-next_part s (some o) = refl

  pub buffer-seek_part :
      (s : State) (reading : Option (Outcome (Option (Record × ℕ))))
      → (seek_part s reading).buffer ≡ s.buffer
  unfolding seek_part
  buffer-seek_part s none = refl
  buffer-seek_part s (some o) = refl

  pub next-Follows :
      (s : State) (reading : Option (Outcome (Option (Record × ℕ)))) (q ahead all : List Record)
      → Follows s q ahead all
      → s.reading ≡ reading
      → (ahead' : List Record) × Follows (next_part s reading) q ahead' all
  next-Follows s (some o) q ahead all f e = answer-Follows s o q ahead all f e
  next-Follows s none q ahead all f e = begins s.cursor.at_end refl
    where
      begins :
          (at_end : Bool)
          → s.cursor.at_end ≡ at_end
          → (ahead' : List Record) × Follows (next_part s none) q ahead' all
      begins true at = (ahead, rw (next_part-at_end s at) f)
      begins false at = (ahead, rw (next_part-going s at) (read-Follows s q ahead all f at))

  pub sought-Follows :
      (s : State) (reading : Option (Outcome (Option (Record × ℕ)))) (q ahead all : List Record)
      → Follows s q ahead all
      → s.reading ≡ reading
      → Follows (seek_part s reading) q ahead all
  unfolding seek_part
  sought-Follows s none q ahead all f e = seek-Follows s q ahead all f e
  sought-Follows s (some o) q ahead all f e = f
