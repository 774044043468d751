-- ===== src/Disk/ControlBlock/Crc.antt =====
-- What the control block's checksum covers, and when it verifies.
use ring_buffer.Prelude.{
  ℕ, ◌≡◌, refl, ap, sym, ◌∙◌, ◌↔◌, List, ◌++◌, true, arith, length, ◌<◌, ==_iff, ◌^◌,
}
use ring_buffer.Bytes.{to_le_bytes}
use ring_buffer.Bytes.Laws.{from_le_bytes-to_le_bytes}
use ring_buffer.Platform.{Platform}
use ring_buffer.Disk.ControlBlock.{
  ControlBlock, IsBlock, fields_as_bytes, from_bytes, as_bytes, hashed_bytes, update_crc,
  verify_crc,
}

-- The checksum tells two runs of bytes apart that differ in their last four only. A CRC of 32 bits
-- does: it detects every error burst of at most 32 bits.
abbrev pub DetectsBursts : Platform → Type 0
DetectsBursts p =
    (prefix : List ℕ) (v w : ℕ)
    → v < 2 ^ 32
    → w < 2 ^ 32
    → p.checksum (prefix ++ to_le_bytes 4 v) ≡ p.checksum (prefix ++ to_le_bytes 4 w)
    → v ≡ w

module _ ⦃p : Platform⦄ where
  pub length-as_bytes : (c : ControlBlock) → length (as_bytes c) ≡ 48
  unfolding as_bytes fields_as_bytes to_le_bytes
  length-as_bytes c = omega (arith, p.length_padding)

  -- The hashed bytes are the six fields and the checksum field itself.
  pub hashed_bytes_lem :
      (c : ControlBlock) → hashed_bytes c ≡ fields_as_bytes c ++ to_le_bytes 4 c.crc32
  unfolding hashed_bytes as_bytes fields_as_bytes to_le_bytes
  hashed_bytes_lem c = refl

  -- A control block whose fields fit their types is read back from its bytes, whatever the padding
  -- holds.
  pub from_bytes-as_bytes : (c : ControlBlock) → IsBlock c → from_bytes (as_bytes c) ≡ c
  unfolding from_bytes as_bytes fields_as_bytes to_le_bytes
  from_bytes-as_bytes c h = λ i. record {
    magic = from_le_bytes-to_le_bytes 4 c.magic h.magic_lt i;
    version = from_le_bytes-to_le_bytes 4 c.version h.version_lt i;
    buffer_size = from_le_bytes-to_le_bytes 8 c.buffer_size h.buffer_size_lt i;
    write_pos = from_le_bytes-to_le_bytes 8 c.write_pos h.write_pos_lt i;
    read_pos = from_le_bytes-to_le_bytes 8 c.read_pos h.read_pos_lt i;
    wrap_count = from_le_bytes-to_le_bytes 8 c.wrap_count h.wrap_count_lt i;
    crc32 = from_le_bytes-to_le_bytes 4 c.crc32 h.crc32_lt i;
  }

  -- `update_crc` changes the hashed bytes in the checksum's four bytes alone.
  hashed_bytes-update_crc :
      (c : ControlBlock)
      → hashed_bytes (update_crc c) ≡ fields_as_bytes c ++ to_le_bytes 4 (update_crc c).crc32
  unfolding update_crc fields_as_bytes
  hashed_bytes-update_crc c = hashed_bytes_lem (update_crc c)

  crc32-update_crc : (c : ControlBlock) → (update_crc c).crc32 ≡ p.checksum (hashed_bytes c)
  unfolding update_crc
  crc32-update_crc c = refl

  pub crc32-update_crc-lt : (c : ControlBlock) → (update_crc c).crc32 < 2 ^ 32
  unfolding update_crc
  crc32-update_crc-lt c = p.checksum_lt (hashed_bytes c)

  pub update_crc-IsBlock : (c : ControlBlock) → IsBlock c → IsBlock (update_crc c)
  unfolding update_crc
  update_crc-IsBlock c h = omega (arith, p.checksum_lt (hashed_bytes c))

  rehash :
      (c : ControlBlock)
      → p.checksum (hashed_bytes (update_crc c))
        ≡ p.checksum (fields_as_bytes c ++ to_le_bytes 4 (update_crc c).crc32)
  rehash c = ap p.checksum (hashed_bytes-update_crc c)

  -- If the checksum tells apart runs of bytes that differ in their last four only, then
  -- `verify_crc` after `update_crc` succeeds exactly if the update has left the checksum field,
  -- which fits its type, as it was.
  pub verify_crc-update_crc :
      (c : ControlBlock)
      → DetectsBursts p
      → c.crc32 < 2 ^ 32
      → (verify_crc (update_crc c) ≡ true) ↔ ((update_crc c).crc32 ≡ c.crc32)
  unfolding verify_crc
  verify_crc-update_crc c bursts h = (
    λ ok. sym (
        bursts (fields_as_bytes c) _ _ h (crc32-update_crc-lt c) (
          ap p.checksum (sym (hashed_bytes_lem c))
          ∙ sym (crc32-update_crc c)
          ∙ (==_iff _ _).0 ok
          ∙ rehash c)),
    λ same. (==_iff _ _).1 (
        crc32-update_crc c
        ∙ ap p.checksum (hashed_bytes_lem c)
        ∙ ap (λ w. p.checksum (fields_as_bytes c ++ to_le_bytes 4 w)) (sym same)
        ∙ sym (rehash c)),
  )
