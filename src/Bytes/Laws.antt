-- ===== src/Bytes/Laws.antt =====
-- The laws of integers as bytes, and of reading back what a write left in memory.
use ring_buffer.Prelude.{
  ℕ, zero, suc, ◌+◌, ◌/◌, ◌^◌, ◌≤◌, ◌<◌, ◌≡◌, refl, ap, some, List, [], ◌∷◌, arith, length, take,
  drop, length-take, length-drop,
}
use native.Mathlib.Nat.{pow-suc}
use ring_buffer.Bytes.{to_le_bytes, from_le_bytes, range_of, overwrite, slice, copy_from_slice}

pub length-to_le_bytes : (n v : ℕ) → length (to_le_bytes n v) ≡ n
unfolding to_le_bytes
length-to_le_bytes zero v = refl
length-to_le_bytes (suc n) v = ap suc (length-to_le_bytes n (v / 256))

-- A number that fits in its bytes is read back.
pub from_le_bytes-to_le_bytes : (n v : ℕ) → v < 256 ^ n → from_le_bytes (to_le_bytes n v) ≡ v
unfolding to_le_bytes from_le_bytes
from_le_bytes-to_le_bytes zero v h = omega arith
from_le_bytes-to_le_bytes (suc n) v h =
    omega
      (arith, pow-suc 256 n, from_le_bytes-to_le_bytes n (v / 256) (omega (arith, pow-suc 256 n)))

-- No run of `n` bytes stands for more than fits in them.
pub from_le_bytes-take-lt : (n : ℕ) (bs : List ℕ) → from_le_bytes (take n bs) < 256 ^ n
unfolding from_le_bytes
from_le_bytes-take-lt zero bs = omega arith
from_le_bytes-take-lt (suc n) [] =
    omega (arith, pow-suc 256 n, from_le_bytes-take-lt n [], from_nil n)
  where
    from_nil : (n : ℕ) → from_le_bytes (take n []) ≡ 0
    from_nil zero = refl
    from_nil (suc n) = refl
from_le_bytes-take-lt (suc n) (b ∷ bs) = omega (arith, pow-suc 256 n, from_le_bytes-take-lt n bs)

pub length-overwrite :
    (mem : List ℕ) (pos : ℕ) (bs : List ℕ) → length (overwrite mem pos bs) ≡ length mem
unfolding overwrite
length-overwrite [] pos bs = refl
length-overwrite (x ∷ mem) zero [] = refl
length-overwrite (x ∷ mem) zero (b ∷ bs) = ap suc (length-overwrite mem zero bs)
length-overwrite (x ∷ mem) (suc pos) bs = ap suc (length-overwrite mem pos bs)

pub overwrite-nil : (mem : List ℕ) (pos : ℕ) → overwrite mem pos [] ≡ mem
unfolding overwrite
overwrite-nil [] pos = refl
overwrite-nil (x ∷ mem) zero = refl
overwrite-nil (x ∷ mem) (suc pos) = ap (λ m. x ∷ m) (overwrite-nil mem pos)

range_of-overwrite_all :
    (mem : List ℕ) (pos : ℕ) (bs : List ℕ)
    → pos + length bs ≤ length mem
    → range_of (overwrite mem pos bs) pos (length bs) ≡ bs
unfolding overwrite
range_of-overwrite_all [] pos [] h = refl
range_of-overwrite_all [] pos (b ∷ bs) h = absurd (omega arith)
range_of-overwrite_all (x ∷ mem) zero [] h = refl
range_of-overwrite_all (x ∷ mem) zero (b ∷ bs) h =
    ap (λ m. b ∷ m) (range_of-overwrite_all mem zero bs (omega arith))
range_of-overwrite_all (x ∷ mem) (suc pos) bs h = range_of-overwrite_all mem pos bs (omega arith)

-- A write in bounds is read back.
pub range_of-overwrite :
    (mem : List ℕ) (pos : ℕ) (bs : List ℕ) (n : ℕ)
    → length bs ≡ n
    → pos + n ≤ length mem
    → range_of (overwrite mem pos bs) pos n ≡ bs
range_of-overwrite mem pos bs n e h = rw (← e) (range_of-overwrite_all mem pos bs (omega arith))

-- A write leaves the bytes below it as they were.
pub range_of-overwrite_below :
    (mem : List ℕ) (pos : ℕ) (bs : List ℕ) (at n : ℕ)
    → at + n ≤ pos
    → range_of (overwrite mem pos bs) at n ≡ range_of mem at n
unfolding overwrite
range_of-overwrite_below [] pos bs at n h = refl
range_of-overwrite_below (x ∷ mem) zero bs zero zero h = refl
range_of-overwrite_below (x ∷ mem) zero bs zero (suc n) h = absurd (omega arith)
range_of-overwrite_below (x ∷ mem) zero bs (suc at) n h = absurd (omega arith)
range_of-overwrite_below (x ∷ mem) (suc pos) bs zero zero h = refl
range_of-overwrite_below (x ∷ mem) (suc pos) bs zero (suc n) h =
    ap (λ m. x ∷ m) (range_of-overwrite_below mem pos bs zero n (omega arith))
range_of-overwrite_below (x ∷ mem) (suc pos) bs (suc at) n h =
    range_of-overwrite_below mem pos bs at n (omega arith)

-- A write leaves the bytes above it as they were.
pub range_of-overwrite_above :
    (mem : List ℕ) (pos : ℕ) (bs : List ℕ) (at n : ℕ)
    → pos + length bs ≤ at
    → range_of (overwrite mem pos bs) at n ≡ range_of mem at n
unfolding overwrite
range_of-overwrite_above [] pos bs at n h = refl
range_of-overwrite_above (x ∷ mem) zero [] at n h = refl
range_of-overwrite_above (x ∷ mem) zero (b ∷ bs) zero n h = absurd (omega arith)
range_of-overwrite_above (x ∷ mem) zero (b ∷ bs) (suc at) n h =
    range_of-overwrite_above mem zero bs at n (omega arith)
range_of-overwrite_above (x ∷ mem) (suc pos) bs zero n h = absurd (omega arith)
range_of-overwrite_above (x ∷ mem) (suc pos) bs (suc at) n h =
    range_of-overwrite_above mem pos bs at n (omega arith)

pub length-range_of :
    (mem : List ℕ) (pos n : ℕ) → pos + n ≤ length mem → length (range_of mem pos n) ≡ n
length-range_of mem pos n h = omega (arith, length-take n (drop pos mem), length-drop pos mem)

-- In bounds a slice is the range, and a copy is the overwriting.
pub slice-in_bounds :
    (mem : List ℕ) (pos n : ℕ) → pos + n ≤ length mem → slice mem pos n ≡ some (range_of mem pos n)
unfolding slice
slice-in_bounds mem pos n h = ground arith

pub copy_from_slice-in_bounds :
    (mem : List ℕ) (pos : ℕ) (bs : List ℕ)
    → pos + length bs ≤ length mem
    → copy_from_slice mem pos bs ≡ some (overwrite mem pos bs)
unfolding copy_from_slice
copy_from_slice-in_bounds mem pos bs h = ground arith
