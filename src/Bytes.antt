-- ===== src/Bytes.antt =====
-- Byte strings in memory: the little-endian layout of an unsigned integer, and the slices of a
-- mapped file or of a slot array (`&buf[a..b]`, `copy_from_slice`, `ptr::copy_nonoverlapping`).
pub mod Laws
use ring_buffer.Prelude.{
  ℕ, zero, suc, ◌+◌, ◌*◌, ◌/◌, ◌%◌, ◌<◌, Bool, Option, none, some, List, [], ◌∷◌, ◌++◌, leb, length,
  take, drop, if◌then◌else◌,
}

-- The `n` bytes of `v`, lowest first: `v as [u8; n]` on a little-endian machine.
unfoldable pub to_le_bytes : ℕ → ℕ → List ℕ
to_le_bytes zero v = []
to_le_bytes (suc n) v = v % 256 ∷ to_le_bytes n (v / 256)

-- The number that a run of bytes stands for. A byte is a number below 256; the remainder states it.
unfoldable pub from_le_bytes : List ℕ → ℕ
from_le_bytes [] = 0
from_le_bytes (b ∷ bs) = b % 256 + 256 * from_le_bytes bs

-- The `n` bytes from `pos` on.
abbrev pub range_of : List ℕ → ℕ → ℕ → List ℕ
range_of mem pos n = take n (drop pos mem)

-- The bytes from `pos` on, replaced by `bs`.
unfoldable pub overwrite : List ℕ → ℕ → List ℕ → List ℕ
overwrite [] pos bs = []
overwrite (x ∷ mem) zero [] = x ∷ mem
overwrite (x ∷ mem) zero (b ∷ bs) = b ∷ overwrite mem zero bs
overwrite (x ∷ mem) (suc pos) bs = x ∷ overwrite mem pos bs

-- `&mem[pos .. pos + n]`: out of bounds it is `none`, as the index panics, and a raw read is
-- undefined.
unfoldable pub slice : List ℕ → ℕ → ℕ → Option (List ℕ)
slice mem pos n = if leb (pos + n) (length mem) then some (range_of mem pos n) else none

-- `mem[pos .. pos + bs.len()].copy_from_slice(bs)`: out of bounds it panics.
unfoldable pub copy_from_slice : List ℕ → ℕ → List ℕ → Option (List ℕ)
copy_from_slice mem pos bs =
    if leb (pos + length bs) (length mem) then some (overwrite mem pos bs) else none
