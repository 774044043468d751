-- ===== src/Disk/Persistent/Crash.antt =====
-- `write` that is cut short: the process ends while it copies the header, the data and the control
-- block into the map, in this order. The file is what the map was then.
use ring_buffer.Prelude.{
  ℕ, length-take, take-all, ◌+◌, ◌-◌, ◌≤◌, ◌≡◌, refl, ◌∙◌, sym, subst, List, [], ◌∷◌, arith, length,
  take, ◌⊎◌, inl, inr,
}
use ring_buffer.Bytes.{range_of, overwrite}
use ring_buffer.Bytes.Laws.{
  length-overwrite, range_of-overwrite_below, range_of-overwrite_above, overwrite-nil,
}
use ring_buffer.Platform.{Platform}
use ring_buffer.Memory.Record.{Record}
use ring_buffer.Disk.ControlBlock
use ring_buffer.Disk.ControlBlock.{ControlBlock}
use ring_buffer.Disk.ControlBlock.Crc.{length-as_bytes}
use ring_buffer.Disk.Header
use ring_buffer.Disk.Header.Layout.{length-as_bytes as length-header_bytes}
use ring_buffer.Disk.Persistent.{PersistentRingBuffer, header_for, wrapped}
use ring_buffer.Disk.Persistent.Valid.{advanced}
use ring_buffer.Disk.Persistent.Write.{frame_size, after_write}
use ring_buffer.Disk.Persistent.Frames.{Frames, Frames-le}

-- Two maps that differ in `n` bytes from `pos` on at most.
pub record IsTorn (m m' : List ℕ) (pos n : ℕ) : Type 0 where
  pub length_eq : length m' ≡ length m
  pub below : (at k : ℕ) → at + k ≤ pos → range_of m' at k ≡ range_of m at k
  pub above : (at k : ℕ) → pos + n ≤ at → range_of m' at k ≡ range_of m at k

untouched-IsTorn : (m : List ℕ) (pos n : ℕ) → IsTorn m m pos n
untouched-IsTorn m pos n = record {
  length_eq = refl;
  below = λ at k h. refl;
  above = λ at k h. refl;
}

overwrite-IsTorn :
    (m m' : List ℕ) (pos n at : ℕ) (bs : List ℕ)
    → pos ≤ at
    → at + length bs ≤ pos + n
    → IsTorn m m' pos n
    → IsTorn m (overwrite m' at bs) pos n
overwrite-IsTorn m m' pos n at bs low high t = record {
  length_eq = length-overwrite m' at bs ∙ t.length_eq;
  below = λ q k h. range_of-overwrite_below m' at bs q k (omega (arith, low, h)) ∙ t.below q k h;
  above = λ q k h. range_of-overwrite_above m' at bs q k (omega (arith, high, h)) ∙ t.above q k h;
}

module _ ⦃p : Platform⦄ where
  -- The map when `n` bytes have been copied.
  unfoldable pub interrupted : PersistentRingBuffer → Record → ℕ → List ℕ
  interrupted b r n =
      let control = wrapped b (frame_size r) in
      let header_pos = 48 + control.write_pos in
      let with_header = overwrite b.mmap header_pos (take n (Header.as_bytes (header_for r))) in
      let with_data = overwrite with_header (header_pos + 24) (take (n - 24) r.bytes) in
      overwrite with_data 0 (take (n - frame_size r) (ControlBlock.as_bytes (advanced control r)))

  -- The whole copy is that of `write`.
  pub interrupted-all :
      (b : PersistentRingBuffer) (r : Record) (n : ℕ)
      → frame_size r + 48 ≤ n
      → interrupted b r n ≡ (after_write b r).mmap
  unfolding interrupted
  interrupted-all b r n h =
      let control = advanced (wrapped b (frame_size r)) r in
      let header =
        take-all n (Header.as_bytes (header_for r))
          (omega (arith, h, length-header_bytes (header_for r))) in
      let bytes = take-all (n - 24) r.bytes (omega (arith, h)) in
      let block =
        take-all (n - frame_size r) (ControlBlock.as_bytes control)
          (omega (arith, h, length-as_bytes control)) in
      rw (header, bytes, block) refl

  pub interrupted-IsTorn :
      (b : PersistentRingBuffer) (r : Record) (n : ℕ)
      → n ≤ frame_size r
      → IsTorn b.mmap (interrupted b r n) (48 + (wrapped b (frame_size r)).write_pos) (frame_size r)
  unfolding interrupted
  interrupted-IsTorn b r n h =
      let pos = 48 + (wrapped b (frame_size r)).write_pos in
      let header = take n (Header.as_bytes (header_for r)) in
      let bytes = take (n - 24) r.bytes in
      let control = ControlBlock.as_bytes (advanced (wrapped b (frame_size r)) r) in
      let none_yet : n - frame_size r ≡ 0 = omega (arith, h) in
      let before_control = overwrite (overwrite b.mmap pos header) (pos + 24) bytes in
      subst (λ k. IsTorn b.mmap (overwrite before_control 0 (take k control)) pos (frame_size r))
        (sym none_yet)
        (subst (λ m. IsTorn b.mmap m pos (frame_size r)) (sym (overwrite-nil before_control 0))
          (overwrite-IsTorn b.mmap _ pos (frame_size r) (pos + 24) bytes (omega arith)
            (omega (arith, length-take (n - 24) r.bytes))
            (overwrite-IsTorn b.mmap b.mmap pos (frame_size r) pos header (omega arith)
              (omega (
                arith,
                length-take n (Header.as_bytes (header_for r)),
                length-header_bytes (header_for r),
              ))
              (untouched-IsTorn b.mmap pos (frame_size r)))))

  -- A range between two positions, outside the torn bytes.
  untorn :
      (m m' : List ℕ) (at n pos end : ℕ)
      → IsTorn m m' (48 + at) n
      → ((end ≤ at) ⊎ (at + n ≤ pos))
      → (q k : ℕ) → 48 + pos ≤ q
      → q + k ≤ 48 + end
      → range_of m' q k ≡ range_of m q k
  untorn m m' at n pos end t (inl h) q k low high = t.below q k (omega (arith, h, high))
  untorn m m' at n pos end t (inr h) q k low high = t.above q k (omega (arith, h, low))

  -- The records outside the torn bytes.
  pub Frames-torn :
      (m m' : List ℕ) (at n pos : ℕ) (rs : List Record) (end : ℕ)
      → IsTorn m m' (48 + at) n
      → ((end ≤ at) ⊎ (at + n ≤ pos))
      → Frames m pos rs end
      → Frames m' pos rs end
  Frames-torn m m' at n pos [] end t apart f = f
  Frames-torn m m' at n pos (r ∷ rs) end t apart f =
      let inside = Frames-le m (pos + frame_size r) rs end f.2 in
      (
        f.0,
        record {
          header_bytes =
              untorn m m' at n pos end t apart (48 + pos) 24 (omega arith) (omega (arith, inside))
              ∙ f.1.header_bytes;
          data_bytes =
              untorn m m' at n pos end t apart (48 + pos + 24) (length r.bytes) (omega arith)
                (omega (arith, inside))
              ∙ f.1.data_bytes;
        },
        Frames-torn m m' at n (pos + frame_size r) rs end t (further apart) f.2,
      )
    where
      further : ((end ≤ at) ⊎ (at + n ≤ pos)) → (end ≤ at) ⊎ (at + n ≤ pos + frame_size r)
      further (inl h) = inl h
      further (inr h) = inr (omega (arith, h))
