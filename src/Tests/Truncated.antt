-- ===== src/Tests/Truncated.antt =====
-- A file with a good control block and no data section, at a checksum that is the same for all bytes.
use ring_buffer.Prelude.{◌≡◌, refl, [], ◌∷◌, none, true, arith, take-all}
use ring_buffer.Platform.{Platform}
use ring_buffer.Disk.ControlBlock
use ring_buffer.Disk.ControlBlock.{ControlBlock, IsBlock}
use ring_buffer.Disk.ControlBlock.Crc.{length-as_bytes}
use ring_buffer.Disk.Outcome.{ok, panic}
use ring_buffer.Disk.Persistent.{PersistentRingBuffer, write}
use ring_buffer.Disk.Persistent.Open.{new}
use ring_buffer.Disk.Persistent.Truncated.{write-truncated}
use ring_buffer.Disk.Reopen.{succeeds}
use ring_buffer.Tests.Toy.{three_bytes}

instance abbrev constant : Platform
constant = record {
  checksum = λ bs. 5;
  checksum_lt = λ bs. omega arith;
  padding = 0 ∷ 0 ∷ 0 ∷ 0 ∷ [];
  length_padding = refl;
}

abbrev block : ControlBlock
block = record {
  magic = ControlBlock.magic_number;
  version = 1;
  buffer_size = 60;
  write_pos = 0;
  read_pos = 0;
  wrap_count = 0;
  crc32 = 5;
}

block-IsBlock : IsBlock block
block-IsBlock = record {
  magic_lt = omega arith;
  version_lt = omega arith;
  buffer_size_lt = omega arith;
  write_pos_lt = omega arith;
  read_pos_lt = omega arith;
  wrap_count_lt = omega arith;
  crc32_lt = omega arith;
}

verified : ControlBlock.verify_crc block ≡ true
unfolding ControlBlock.verify_crc
verified = refl

write-truncated_example :
    (b : PersistentRingBuffer) × (new "log" succeeds (ControlBlock.as_bytes block) 0
      ≡ (ok b, ControlBlock.as_bytes block))
    × (b.size ≡ 60)
    × ((write b three_bytes none).0 ≡ panic)
write-truncated_example =
    let len = length-as_bytes block in
    write-truncated "log" (ControlBlock.as_bytes block) block 0 three_bytes none
      (omega (arith, len)) (take-all 48 (ControlBlock.as_bytes block) (omega (arith, len)))
      block-IsBlock refl verified (omega arith) (omega arith) (omega (arith, len))
