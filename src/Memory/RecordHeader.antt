-- ===== src/Memory/RecordHeader.antt =====
-- `struct RecordHeader` of src/memory/mod.rs.
use ring_buffer.Prelude.{ℕ, List, [], ◌∷◌, ◌++◌, Bool, ◌==◌}
use ring_buffer.Bytes.{to_le_bytes, from_le_bytes, range_of}
use ring_buffer.Platform.{Platform, size_of}

pub record RecordHeader : Type 0 where
  pub size : ℕ
  pub crc32 : ℕ
  pub timestamp_us : ℕ
  pub tag : ℕ

-- `RecordHeader::SIZE`: 24, with four bytes of padding at the end.
abbrev pub header_size : ℕ
header_size = size_of (4 ∷ 4 ∷ 8 ∷ 4 ∷ [])

-- `now` is the reading of the system clock, in microseconds.
unfoldable pub new : ℕ → ℕ → ℕ → RecordHeader
new now size tag = record { size = size; crc32 = 0; timestamp_us = now; tag = tag }

module _ ⦃p : Platform⦄ where
  unfoldable pub update_crc : RecordHeader → List ℕ → RecordHeader
  update_crc h bytes = record h { crc32 = p.checksum bytes }

  unfoldable pub verify_crc : RecordHeader → List ℕ → Bool
  verify_crc h bytes = h.crc32 == p.checksum bytes

-- `*(ptr as *const RecordHeader)`.
unfoldable pub from_bytes : List ℕ → RecordHeader
from_bytes bs = record {
  size = from_le_bytes (range_of bs 0 4);
  crc32 = from_le_bytes (range_of bs 4 4);
  timestamp_us = from_le_bytes (range_of bs 8 8);
  tag = from_le_bytes (range_of bs 16 4);
}

-- The bytes that `*(ptr as *mut RecordHeader) = header` writes.
unfoldable pub as_bytes : ⦃p : Platform⦄ → RecordHeader → List ℕ
as_bytes ⦃p⦄ h =
    to_le_bytes 4 h.size
    ++ (to_le_bytes 4 h.crc32
        ++ (to_le_bytes 8 h.timestamp_us ++ (to_le_bytes 4 h.tag ++ p.padding)))
