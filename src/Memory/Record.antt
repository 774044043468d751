-- ===== src/Memory/Record.antt =====
-- `struct Record` of src/memory/mod.rs. Its field `data` is `bytes` here.
use ring_buffer.Prelude.{ℕ, List, length}
use ring_buffer.Platform.{Platform, add64, as_u32}
use ring_buffer.Memory.RecordHeader.{RecordHeader}
use ring_buffer.Memory.RecordHeader

pub record Record : Type 0 where
  pub header : RecordHeader
  pub bytes : List ℕ

unfoldable pub total_size : Record → ℕ
total_size r = add64 RecordHeader.header_size (length r.bytes)

module _ ⦃p : Platform⦄ where
  unfoldable pub new : ℕ → List ℕ → ℕ → Record
  new now bytes tag = record {
    header = RecordHeader.update_crc (RecordHeader.new now (as_u32 (length bytes)) tag) bytes;
    bytes = bytes;
  }
