-- ===== src/Disk/Header/Layout.antt =====
-- A record header as bytes, and back.
use ring_buffer.Prelude.{ℕ, ◌≡◌, refl, true, length, ==_iff, List}
use ring_buffer.Bytes.{to_le_bytes}
use ring_buffer.Bytes.Laws.{from_le_bytes-to_le_bytes}
use ring_buffer.Platform.{Platform}
use ring_buffer.Disk.Header.{Header, IsHeader, as_bytes, from_bytes, update_crc, verify_crc}

pub length-as_bytes : (h : Header) → length (as_bytes h) ≡ 24
unfolding as_bytes to_le_bytes
length-as_bytes h = refl

-- A record header whose fields fit their types is read back from its bytes.
pub header_from_bytes-as_bytes : (h : Header) → IsHeader h → from_bytes (as_bytes h) ≡ h
unfolding from_bytes as_bytes to_le_bytes
header_from_bytes-as_bytes h ok = λ i. record {
  size = from_le_bytes-to_le_bytes 4 h.size ok.size_lt i;
  crc32 = from_le_bytes-to_le_bytes 4 h.crc32 ok.crc32_lt i;
  timestamp_us = from_le_bytes-to_le_bytes 8 h.timestamp_us ok.timestamp_us_lt i;
  tag = from_le_bytes-to_le_bytes 4 h.tag ok.tag_lt i;
  marker = from_le_bytes-to_le_bytes 2 h.marker ok.marker_lt i;
  reserved = from_le_bytes-to_le_bytes 2 h.reserved ok.reserved_lt i;
}

-- A checksum that was just updated verifies over the same bytes.
pub verify_crc-update_crc :
    ⦃p : Platform⦄ (h : Header) (bytes : List ℕ) → verify_crc (update_crc h bytes) bytes ≡ true
unfolding verify_crc update_crc
verify_crc-update_crc ⦃p⦄ h bytes = (==_iff _ (p.checksum bytes)).1 refl
