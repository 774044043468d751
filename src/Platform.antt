-- ===== src/Platform.antt =====
-- What the code takes from the machine, from the compiler and from the crate crc32fast: `usize`
-- and `u64` arithmetic of a release build, the size of a `repr(C)` struct, its padding bytes, and
-- the checksum. The target is little-endian with 64-bit `usize`.
use ring_buffer.Prelude.{
  Bool, true, leb, le→leb, arith, ◌≤◌, ℕ, ◌+◌, ◌-◌, ◌*◌, ◌/◌, ◌%◌, ◌^◌, ◌<◌, max, ◌≡◌, List, [],
  ◌∷◌, length,
}

abbrev pub u32_mod : ℕ
u32_mod = 2 ^ 32

abbrev pub u64_mod : ℕ
u64_mod = 2 ^ 64

-- `a + b` and `a.wrapping_add(b)` on `u64` and on `usize`.
abbrev pub add64 : ℕ → ℕ → ℕ
add64 a b = (a + b) % u64_mod

-- `a.wrapping_sub(b)`; the library's subtraction stops at 0, so the modulus comes first.
abbrev pub sub64 : ℕ → ℕ → ℕ
sub64 a b = (a + u64_mod - b) % u64_mod

-- `a * b` on `usize`.
abbrev pub mul64 : ℕ → ℕ → ℕ
mul64 a b = a * b % u64_mod

-- Whether `n` elements of `size` bytes are a capacity that `Vec` accepts: at most `isize::MAX`
-- bytes. It panics on any other. The memory of the machine is not exhausted below that.
unfoldable pub fits_vec : ℕ → ℕ → Bool
fits_vec n size = leb (n * size) (2 ^ 63 - 1)

pub fits_vec_lem : (n size : ℕ) → n * size < 2 ^ 63 → fits_vec n size ≡ true
unfolding fits_vec
fits_vec_lem n size h =
    let bound : n * size ≤ 2 ^ 63 - 1 = omega (arith, h) in le→leb (n * size) (2 ^ 63 - 1) bound

-- `a as u32`.
abbrev pub as_u32 : ℕ → ℕ
as_u32 a = a % u32_mod

-- The next multiple of an alignment.
abbrev pub align_to : ℕ → ℕ → ℕ
align_to n align = (n + align - 1) / align * align

-- The end of the last field, and the largest alignment, of fields whose alignment is their size.
abbrev pub field_end : ℕ → List ℕ → ℕ
field_end offset [] = offset
field_end offset (size ∷ fields) = field_end (align_to offset size + size) fields

abbrev pub max_align : List ℕ → ℕ
max_align [] = 1
max_align (size ∷ fields) = max size (max_align fields)

-- `std::mem::size_of` of a `repr(C)` struct of unsigned integers.
abbrev pub size_of : List ℕ → ℕ
size_of fields = align_to (field_end 0 fields) (max_align fields)

-- `checksum` is `Hasher::new`, `update` with the bytes, `finalize`: a `u32` that depends on the
-- bytes alone. `padding` stands for the four bytes that a `repr(C)` struct carries behind its last
-- field, whose content the language leaves open.
pub record Platform : Type 0 where
  pub checksum : List ℕ → ℕ
  pub checksum_lt : (bs : List ℕ) → checksum bs < u32_mod
  pub padding : List ℕ
  pub length_padding : length padding ≡ 4
