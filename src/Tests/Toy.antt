-- ===== src/Tests/Toy.antt =====
-- A platform that meets the assumptions on checksum and padding, and data to run the model on.
use ring_buffer.Prelude.{
  ℕ, ◌+◌, ◌-◌, ◌%◌, ◌<◌, ◌^◌, ◌≡◌, refl, ap, ◌∙◌, sym, List, [], ◌∷◌, ◌++◌, length, length-append,
  drop, arith,
}
use ring_buffer.Bytes.{from_le_bytes, to_le_bytes}
use ring_buffer.Bytes.Laws.{length-to_le_bytes, from_le_bytes-to_le_bytes}
use ring_buffer.Platform.{Platform}
use ring_buffer.Memory.Record.{Record}
use ring_buffer.Disk.Persistent.{PersistentRingBuffer}
use ring_buffer.Disk.ControlBlock.Crc.{DetectsBursts}
use ring_buffer.Disk.Reopen.{fresh}

-- The last four bytes as a number, and 1 more.
abbrev pub last_four : List ℕ → List ℕ
last_four bs = drop (length bs - 4) bs

abbrev pub toy_checksum : List ℕ → ℕ
toy_checksum bs = (from_le_bytes (last_four bs) + 1) % 2 ^ 32

instance abbrev pub toy : Platform
toy = record {
  checksum = toy_checksum;
  checksum_lt = λ bs. omega arith;
  padding = 0 ∷ 0 ∷ 0 ∷ 0 ∷ [];
  length_padding = refl;
}

drop-append : (xs ys : List ℕ) → drop (length xs) (xs ++ ys) ≡ ys
drop-append [] ys = refl
drop-append (x ∷ xs) ys = drop-append xs ys

last_four-append : (xs ys : List ℕ) → length ys ≡ 4 → last_four (xs ++ ys) ≡ ys
last_four-append xs ys four =
    let n : length (xs ++ ys) - 4 ≡ length xs = omega (arith, length-append xs ys) in
    ap (λ m. drop m (xs ++ ys)) n ∙ drop-append xs ys

toy_checksum-append :
    (xs : List ℕ) (v : ℕ) → v < 2 ^ 32 → toy_checksum (xs ++ to_le_bytes 4 v) ≡ (v + 1) % 2 ^ 32
toy_checksum-append xs v small =
    ap (λ bs. (from_le_bytes bs + 1) % 2 ^ 32)
      (last_four-append xs (to_le_bytes 4 v) (length-to_le_bytes 4 v))
    ∙ ap (λ (n : ℕ). (n + 1) % 2 ^ 32) (from_le_bytes-to_le_bytes 4 v small)

pub toy-DetectsBursts : DetectsBursts toy
toy-DetectsBursts xs v w hv hw e =
    let same : (v + 1) % 2 ^ 32 ≡ (w + 1) % 2 ^ 32 =
      sym (toy_checksum-append xs v hv) ∙ e ∙ toy_checksum-append xs w hw in
    omega (arith, same)

abbrev pub three_bytes : Record
three_bytes = record {
  header = record { size = 3; crc32 = 0; timestamp_us = 5; tag = 1 };
  bytes = 7 ∷ 8 ∷ 9 ∷ [];
}

abbrev pub one_byte : Record
one_byte = record {
  header = record { size = 1; crc32 = 0; timestamp_us = 6; tag = 2 };
  bytes = 4 ∷ [];
}

-- A new buffer of 60 bytes: two frames fit.
abbrev pub small_buffer : PersistentRingBuffer
small_buffer = fresh "log" 60
