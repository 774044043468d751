-- ===== src/Disk/Header.antt =====
-- `struct Header` of src/disk/mod.rs, which stands before each record in the buffer file.
pub mod Layout
use ring_buffer.Prelude.{ℕ, List, [], ◌∷◌, ◌++◌, Bool, ◌==◌, ◌≡◌, ◌<◌, ◌^◌}
use ring_buffer.Bytes.{to_le_bytes, from_le_bytes, range_of}
use ring_buffer.Platform.{Platform, size_of, u32_mod, u64_mod}

pub record Header : Type 0 where
  pub size : ℕ
  pub crc32 : ℕ
  pub timestamp_us : ℕ
  pub tag : ℕ
  pub marker : ℕ
  pub reserved : ℕ

-- `Header::SIZE`: 24, with no padding.
abbrev pub header_size : ℕ
header_size = size_of (4 ∷ 4 ∷ 8 ∷ 4 ∷ 2 ∷ 2 ∷ [])

-- `Header::MARKER`.
abbrev pub marker_value : ℕ
marker_value = 0xAA55

-- Each field fits its Rust type.
pub record IsHeader (h : Header) : Type 0 where
  pub size_lt : h.size < u32_mod
  pub crc32_lt : h.crc32 < u32_mod
  pub timestamp_us_lt : h.timestamp_us < u64_mod
  pub tag_lt : h.tag < u32_mod
  pub marker_lt : h.marker < 2 ^ 16
  pub reserved_lt : h.reserved < 2 ^ 16

unfoldable pub new : ℕ → ℕ → ℕ → Header
new size timestamp_us tag = record {
  size = size;
  crc32 = 0;
  timestamp_us = timestamp_us;
  tag = tag;
  marker = marker_value;
  reserved = 0;
}

unfoldable pub is_valid : Header → Bool
is_valid h = h.marker == marker_value

-- `slice::from_raw_parts(&header as *const u8, Header::SIZE)`.
unfoldable pub as_bytes : Header → List ℕ
as_bytes h =
    to_le_bytes 4 h.size
    ++ (to_le_bytes 4 h.crc32
        ++ (to_le_bytes 8 h.timestamp_us
            ++ (to_le_bytes 4 h.tag ++ (to_le_bytes 2 h.marker ++ to_le_bytes 2 h.reserved))))

-- `ptr::read(bytes.as_ptr() as *const Header)`.
unfoldable pub from_bytes : List ℕ → Header
from_bytes bs = record {
  size = from_le_bytes (range_of bs 0 4);
  crc32 = from_le_bytes (range_of bs 4 4);
  timestamp_us = from_le_bytes (range_of bs 8 8);
  tag = from_le_bytes (range_of bs 16 4);
  marker = from_le_bytes (range_of bs 20 2);
  reserved = from_le_bytes (range_of bs 22 2);
}

module _ ⦃p : Platform⦄ where
  unfoldable pub update_crc : Header → List ℕ → Header
  update_crc h bytes = record h { crc32 = p.checksum bytes }

  unfoldable pub verify_crc : Header → List ℕ → Bool
  verify_crc h bytes = h.crc32 == p.checksum bytes
