-- ===== src/Daemon/Float.antt =====
-- All that the library does with an `f32`: conversions, a quotient and a product, and comparisons.
use ring_buffer.Prelude.{ℕ, ◌≤◌, ◌<◌, ◌≡◌, Bool, true}

pub record Float {ℓ} (F : Type ℓ) : Type ℓ where
  -- `n as f32`, and the literals that are whole numbers
  pub of_u64 : ℕ → F
  pub one_and_half : F
  pub div : F → F → F
  pub mul : F → F → F
  pub lt : F → F → Bool
  pub le : F → F → Bool
  -- `x as usize`
  pub as_usize : F → ℕ

-- What IEEE 754 says of them: rounding is monotone, and `<=` is transitive, also where a NaN makes
-- it false.
pub record IsMonotone {ℓ} (F : Type ℓ) ⦃f : Float F⦄ : Type ℓ where
  pub le_trans : (x y z : F) → f.le x y ≡ true → f.le y z ≡ true → f.le x z ≡ true
  pub of_u64_mono : (m n : ℕ) → m ≤ n → f.le (f.of_u64 m) (f.of_u64 n) ≡ true
  pub div_mono :
      (x y : F) (c : ℕ)
      → 0 < c
      → f.le x y ≡ true
      → f.le (f.div x (f.of_u64 c)) (f.div y (f.of_u64 c)) ≡ true
  pub mul_mono :
      (x y : F) (c : ℕ)
      → 0 < c
      → f.le x y ≡ true
      → f.le (f.mul x (f.of_u64 c)) (f.mul y (f.of_u64 c)) ≡ true
