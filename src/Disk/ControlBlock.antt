-- ===== src/Disk/ControlBlock.antt =====
-- `struct ControlBlock` of src/disk/mod.rs: the first bytes of the buffer file.
pub mod Crc
use ring_buffer.Prelude.{ℕ, ◌+◌, ◌-◌, List, [], ◌∷◌, ◌++◌, Bool, take, ◌==◌, ◌≡◌, ◌<◌, ◌^◌}
use ring_buffer.Bytes.{to_le_bytes, from_le_bytes, range_of}
use ring_buffer.Platform.{Platform, size_of, u32_mod, u64_mod}

pub record ControlBlock : Type 0 where
  pub magic : ℕ
  pub version : ℕ
  pub buffer_size : ℕ
  pub write_pos : ℕ
  pub read_pos : ℕ
  pub wrap_count : ℕ
  pub crc32 : ℕ

-- `ControlBlock::SIZE`: 48, for the alignment of the `u64` fields leaves four bytes at the end.
abbrev pub block_size : ℕ
block_size = size_of (4 ∷ 4 ∷ 8 ∷ 8 ∷ 8 ∷ 8 ∷ 4 ∷ [])

abbrev pub magic_number : ℕ
magic_number = 0x5348_524C

abbrev pub version_number : ℕ
version_number = 1

-- Each field fits its Rust type.
pub record IsBlock (c : ControlBlock) : Type 0 where
  pub magic_lt : c.magic < u32_mod
  pub version_lt : c.version < u32_mod
  pub buffer_size_lt : c.buffer_size < u64_mod
  pub write_pos_lt : c.write_pos < u64_mod
  pub read_pos_lt : c.read_pos < u64_mod
  pub wrap_count_lt : c.wrap_count < u64_mod
  pub crc32_lt : c.crc32 < u32_mod

-- The fields before `crc32`, as the struct lies in memory.
unfoldable pub fields_as_bytes : ControlBlock → List ℕ
fields_as_bytes c =
    to_le_bytes 4 c.magic
    ++ (to_le_bytes 4 c.version
        ++ (to_le_bytes 8 c.buffer_size
            ++ (to_le_bytes 8 c.write_pos
                ++ (to_le_bytes 8 c.read_pos ++ to_le_bytes 8 c.wrap_count))))

-- `ptr::read(bytes.as_ptr() as *const ControlBlock)`.
unfoldable pub from_bytes : List ℕ → ControlBlock
from_bytes bs = record {
  magic = from_le_bytes (range_of bs 0 4);
  version = from_le_bytes (range_of bs 4 4);
  buffer_size = from_le_bytes (range_of bs 8 8);
  write_pos = from_le_bytes (range_of bs 16 8);
  read_pos = from_le_bytes (range_of bs 24 8);
  wrap_count = from_le_bytes (range_of bs 32 8);
  crc32 = from_le_bytes (range_of bs 40 4);
}

module _ ⦃p : Platform⦄ where
  -- `slice::from_raw_parts(self as *const u8, SIZE)`: the fields, then the padding.
  unfoldable pub as_bytes : ControlBlock → List ℕ
  as_bytes c = fields_as_bytes c ++ (to_le_bytes 4 c.crc32 ++ p.padding)

  -- The bytes that both checksum functions hash: the first `SIZE - 4`.
  unfoldable pub hashed_bytes : ControlBlock → List ℕ
  hashed_bytes c = take (block_size - 4) (as_bytes c)

  unfoldable pub update_crc : ControlBlock → ControlBlock
  update_crc c = record c { crc32 = p.checksum (hashed_bytes c) }

  unfoldable pub verify_crc : ControlBlock → Bool
  verify_crc c = c.crc32 == p.checksum (hashed_bytes c)

  unfoldable pub new : ℕ → ControlBlock
  new buffer_size = update_crc (record {
    magic = magic_number;
    version = version_number;
    buffer_size = buffer_size;
    write_pos = 0;
    read_pos = 0;
    wrap_count = 0;
    crc32 = 0;
  })
