-- ===== src/Disk/Persistent/Read.antt =====
-- `PersistentRingBuffer::read_at`: on the bytes of a record, and on any bytes.
use ring_buffer.Prelude.{
  ℕ, ◌+◌, ◌≤◌, ◌<◌, ◌^◌, ◌≡◌, refl, inl, inr, List, Option, none, some, arith, length, ltb, leb,
  true, false, Bool-cases, dec_lt, lt→ltb, not_lt→ltb, le→leb, not_le→leb,
}
use ring_buffer.Bytes.Laws.{slice-in_bounds, from_le_bytes-take-lt}
use ring_buffer.Platform.{Platform, add64, as_u32}
use ring_buffer.Memory.Record.{Record}
use ring_buffer.Disk.Header
use ring_buffer.Disk.Header.{Header, IsHeader}
use ring_buffer.Disk.Header.Layout.{header_from_bytes-as_bytes, verify_crc-update_crc}
use ring_buffer.Disk.Outcome.{Outcome, ok, err, panic, undefined, unfinished, invalid_record}
use ring_buffer.Disk.Persistent.{PersistentRingBuffer, header_for, checked, read_data, read_at}
use ring_buffer.Disk.Persistent.Valid.{IsValid}
use ring_buffer.Disk.Persistent.Write.{frame_size}
use ring_buffer.Disk.Persistent.Frames.{IsStorable, FrameAt}

module _ ⦃p : Platform⦄ where
  -- A record as it is read back: its tag, time and bytes, with the size and checksum that `write`
  -- has computed.
  abbrev pub stored : Record → Record
  stored r = record {
    header = record {
      size = length r.bytes;
      crc32 = p.checksum r.bytes;
      timestamp_us = r.header.timestamp_us;
      tag = r.header.tag;
    };
    bytes = r.bytes;
  }

  -- The same header, with its length not reduced.
  abbrev header_of : Record → Header
  header_of r = record {
    size = length r.bytes;
    crc32 = p.checksum r.bytes;
    timestamp_us = r.header.timestamp_us;
    tag = r.header.tag;
    marker = Header.marker_value;
    reserved = 0;
  }

  header_for-eq-header_of : (r : Record) → IsStorable r → header_for r ≡ header_of r
  unfolding header_for Header.new Header.update_crc
  header_for-eq-header_of r s =
      let e : as_u32 (length r.bytes) ≡ length r.bytes = omega (arith, s.length_lt) in rw e refl

  header_of-IsHeader : (r : Record) → IsStorable r → IsHeader (header_of r)
  header_of-IsHeader r s = omega (arith, p.checksum_lt r.bytes)

  checked-header_of :
      (r : Record)
      → IsStorable r
      → checked (header_of r) r.bytes ≡ ok (some (stored r, frame_size r))
  unfolding checked
  checked-header_of r s =
      let verified : Header.verify_crc (header_of r) r.bytes ≡ true =
        unfold Header.update_crc in verify_crc-update_crc (header_of r) r.bytes in
      let e : add64 24 (length r.bytes) ≡ frame_size r = omega (arith, s.length_lt) in
      rw (verified, e) refl

  read_data-frame :
      (mmap : List ℕ) (pos : ℕ) (r : Record)
      → 48 + pos + frame_size r ≤ length mmap
      → length mmap < 2 ^ 63
      → IsStorable r
      → FrameAt mmap pos r
      → read_data mmap (48 + pos) (header_of r) ≡ ok (some (stored r, frame_size r))
  unfolding read_data Header.is_valid
  read_data-frame mmap pos r fits small s f =
      let start : add64 (48 + pos) 24 ≡ 48 + pos + 24 = omega arith in
      let n = length r.bytes in
      let end : add64 (48 + pos + 24) n ≡ 48 + pos + 24 + n = omega arith in
      let inside : ltb (length mmap) (48 + pos + 24 + n) ≡ false = ground arith in
      let range = slice-in_bounds mmap (48 + pos + 24) n (omega arith) in
      rw (start, end, inside, range, f.data_bytes) (checked-header_of r s)

  -- On a valid buffer, where the bytes that `write` stores for a record stand inside the data
  -- section, `read_at` returns the record's data, timestamp and tag, with its true length and
  -- checksum, and the size of its frame, if its length, timestamp and tag fit the header's fields.
  pub read_at-frame :
      (b : PersistentRingBuffer) (pos : ℕ) (r : Record)
      → IsValid b
      → pos + frame_size r ≤ b.size
      → IsStorable r
      → FrameAt b.mmap pos r
      → read_at b pos ≡ ok (some (stored r, frame_size r))
  unfolding read_at
  read_at-frame b pos r v fits s f =
      let start : add64 48 pos ≡ 48 + pos = omega (arith, v.size_le) in
      let end : add64 (48 + pos) 24 ≡ 48 + pos + 24 = omega (arith, v.size_le) in
      let before : leb b.size pos ≡ false = ground arith in
      let inside : ltb (length b.mmap) (48 + pos + 24) ≡ false = ground (arith, v.mapped) in
      let range = slice-in_bounds b.mmap (48 + pos) 24 (omega (arith, v.mapped)) in
      rw
        (
          before,
          start,
          end,
          inside,
          range,
          f.header_bytes,
          header_for-eq-header_of r s,
          header_from_bytes-as_bytes (header_of r) (header_of-IsHeader r s),
        )
        (read_data-frame b.mmap pos r (omega (arith, v.mapped)) (omega (arith, v.mapped, v.size_le))
          s f)

  -- What any read may return: a frame inside the data section, nothing, or a bad checksum.
  abbrev pub ReadBounds : PersistentRingBuffer → ℕ → Outcome (Option (Record × ℕ)) → Type 0
  ReadBounds b pos (ok none) = Unit {0}
  ReadBounds b pos (ok (some (r, n))) = (24 ≤ n) × (pos + n ≤ b.size)
  ReadBounds b pos (err e) = e ≡ invalid_record
  ReadBounds b pos panic = ⊥
  ReadBounds b pos undefined = ⊥
  ReadBounds b pos unfinished = ⊥

  checked-bounds :
      (b : PersistentRingBuffer) (pos : ℕ) (h : Header) (bytes : List ℕ)
      → h.size < 2 ^ 32
      → pos + 24 + h.size ≤ b.size
      → ReadBounds b pos (checked h bytes)
  unfolding checked
  checked-bounds b pos h bytes small fits = ground arith

  size-from_bytes-lt : (bs : List ℕ) → (Header.from_bytes bs).size < 2 ^ 32
  unfolding Header.from_bytes
  size-from_bytes-lt bs = from_le_bytes-take-lt 4 bs

  read_data-bounds :
      (b : PersistentRingBuffer) (pos : ℕ) (h : Header)
      → IsValid b
      → pos < b.size
      → h.size < 2 ^ 32
      → ReadBounds b pos (read_data b.mmap (48 + pos) h)
  unfolding read_data
  read_data-bounds b pos h v inside small =
      let start : add64 (48 + pos) 24 ≡ 48 + pos + 24 = omega (arith, v.size_le) in
      let end : add64 (48 + pos + 24) h.size ≡ 48 + pos + 24 + h.size = omega (arith, v.size_le) in
      elim (Bool-cases (Header.is_valid h)) [
        | inr invalid ↦ rw invalid tt
        | inl valid ↦ elim (dec_lt (length b.mmap) (48 + pos + 24 + h.size)) [
          | yes over ↦ rw (valid, start, end, lt→ltb _ _ over) tt
          | no fits ↦
              rw
                (
                  valid,
                  start,
                  end,
                  not_lt→ltb _ _ fits,
                  slice-in_bounds b.mmap (48 + pos + 24) h.size (omega arith),
                )
                (checked-bounds b pos h _ small (omega (arith, v.mapped)))
        ]
      ]

  -- On a valid buffer `read_at`, at any position, does not panic: it returns nothing, the error
  -- `InvalidRecord`, or a record with a size of at least a header's length that ends inside the
  -- data section.
  pub read_at-bounds :
      (b : PersistentRingBuffer) (pos : ℕ) → IsValid b → ReadBounds b pos (read_at b pos)
  unfolding read_at
  read_at-bounds b pos v = elim (dec_lt pos b.size) [
    | no past ↦ rw (le→leb b.size pos (omega arith)) tt
    | yes inside ↦
        let start : add64 48 pos ≡ 48 + pos = omega (arith, v.size_le) in
        let end : add64 (48 + pos) 24 ≡ 48 + pos + 24 = omega (arith, v.size_le) in
        elim (dec_lt (length b.mmap) (48 + pos + 24)) [
          | yes over ↦ rw (not_le→leb b.size pos (omega arith), start, end, lt→ltb _ _ over) tt
          | no fits ↦
              rw
                (
                  not_le→leb b.size pos (omega arith),
                  start,
                  end,
                  not_lt→ltb _ _ fits,
                  slice-in_bounds b.mmap (48 + pos) 24 (omega arith),
                )
                (read_data-bounds b pos _ v inside (size-from_bytes-lt _))
        ]
  ]
