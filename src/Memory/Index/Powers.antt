-- ===== src/Memory/Index/Powers.antt =====
-- Powers of two: the mask of an index is a remainder, and `next_power_of_two` finds the next one.
use Prim.Native.Nat.{digits, bit_and-bitwise}
use native.Mathlib.Nat.{
  pow-suc, one-le-pow, div-add-mod', mul-add-mod_self_right, mod-eq_of_lt, mod-lt, zero-mod,
  add-zero,
}
use ring_buffer.Prelude.{
  ℕ, zero, suc, ◌+◌, ◌-◌, ◌*◌, ◌/◌, ◌%◌, ◌^◌, ◌≤◌, ◌<◌, min, ◌≡◌, refl, ap, ◌∙◌, sym, Bool, true,
  false, ◌||◌, arith, ◌==◌, ==_iff, bit_and, dec_le, le→leb, not_le→leb, ℕ_discrete, if-of_true,
  if-of_false,
}
use ring_buffer.Memory.Run.{returns}
use ring_buffer.Memory.Index.{
  AtomicIndex, power_from, next_power_of_two, is_power_from, is_power_of_two, physical_index, new,
}

-- The remainder by `2 * m`, from that of the half by `m`.
mod_double : (x m : ℕ) → 0 < m → x % (m * 2) ≡ x / 2 % m * 2 + x % 2
mod_double x m h =
    let r = x / 2 % m in
    let whole : x ≡ x / 2 / m * (m * 2) + (r * 2 + x % 2) =
      omega (arith, ap (λ (t : ℕ). t * 2) (div-add-mod' (x / 2) m)) in
    ap (λ (t : ℕ). t % (m * 2)) whole
    ∙ mul-add-mod_self_right (x / 2 / m) (m * 2) (r * 2 + x % 2)
    ∙ mod-eq_of_lt (omega (arith, mod-lt (x / 2) h))

mask_digits : (fuel k a : ℕ) → a ≤ fuel → digits (λ b. zero) min fuel a (2 ^ k - 1) ≡ a % 2 ^ k
mask_digits zero k zero h = sym (zero-mod (2 ^ k))
mask_digits zero k (suc a) h = absurd (omega arith)
mask_digits (suc fuel) k zero h = sym (zero-mod (2 ^ k))
mask_digits (suc fuel) zero (suc a) h =
    omega (arith, mask_digits fuel zero (suc a / 2) (omega arith))
mask_digits (suc fuel) (suc k) (suc a) h =
    let half : (2 ^ suc k - 1) / 2 ≡ 2 ^ k - 1 = omega (arith, pow-suc 2 k, one-le-pow k 2) in
    let odd : (2 ^ suc k - 1) % 2 ≡ 1 = omega (arith, pow-suc 2 k, one-le-pow k 2) in
    rw (half, odd, mask_digits fuel k (suc a / 2) (omega arith), pow-suc 2 k)
      (omega (arith, mod_double (suc a) (2 ^ k) (one-le-pow k 2 (omega arith))))

-- With a power of two as capacity, the physical index is the remainder of the sequence number.
pub bit_and-mask : (k a : ℕ) → bit_and a (2 ^ k - 1) ≡ a % 2 ^ k
bit_and-mask k a = bit_and-bitwise a (2 ^ k - 1) ∙ mask_digits a k a (omega arith)

-- With the mask of a power of two, `physical_index` of a sequence number is its remainder by that
-- power.
pub physical_index_lem :
    (i : AtomicIndex) (k seq : ℕ) → i.mask ≡ 2 ^ k - 1 → physical_index i seq ≡ seq % 2 ^ k
unfolding physical_index
physical_index_lem i k seq e = rw e (bit_and-mask k seq)

or-true : (x : Bool) → (x || true) ≡ true
or-true true = refl
or-true false = refl

-- A power of two that is at least `n`, with no smaller one from `2 ^ j` on.
pub record IsNext (n j k : ℕ) : Type 0 where
  pub covers : n ≤ 2 ^ k
  pub least : (m : ℕ) → j ≤ m → n ≤ 2 ^ m → k ≤ m

above : (j n m : ℕ) → ¬ (n ≤ 2 ^ j) → j ≤ m → n ≤ 2 ^ m → suc j ≤ m
above j n m over lo fits = elim (ℕ_discrete j m) [
  | yes e ↦ absurd (over (rw e fits))
  | no ne ↦ omega arith
]

power_from-fits : (left j n : ℕ) → n ≤ 2 ^ j → power_from (suc left) (2 ^ j) n ≡ 2 ^ j
unfolding power_from
power_from-fits left j n fits = rw (le→leb n (2 ^ j) fits) refl

power_from-over :
    (left j n : ℕ) → ¬ (n ≤ 2 ^ j) → power_from (suc left) (2 ^ j) n ≡ power_from left (2 ^ suc j) n
unfolding power_from
power_from-over left j n over =
    if-of_false (2 ^ j) (power_from left (2 * 2 ^ j) n) (not_le→leb n (2 ^ j) over)
    ∙ ap (λ t. power_from left t n) (omega (arith, pow-suc 2 j))

-- The search of `next_power_of_two` from a power on.
power_from_lem :
    (left j n : ℕ)
    → n ≤ 2 ^ (j + left)
    → (k : ℕ) × (power_from (suc left) (2 ^ j) n ≡ 2 ^ k) × (k ≤ j + left) × IsNext n j k
power_from_lem zero j n h =
    let fits : n ≤ 2 ^ j = rw (← add-zero j) h in
    (j, power_from-fits zero j n fits, omega arith, record { covers = fits; least = λ m lo _. lo })
power_from_lem (suc left) j n h = elim (dec_le n (2 ^ j)) [
  | yes fits ↦ (
    j,
    power_from-fits (suc left) j n fits,
    omega arith,
    record { covers = fits; least = λ m lo _. lo },
  )
  | no over ↦
      let e : j + suc left ≡ suc j + left = omega arith in
      let (k, found, hi, next) = power_from_lem left (suc j) n (rw (← e) h) in
      (
        k,
        power_from-over (suc left) j n over ∙ found,
        omega arith,
        record {
          covers = next.covers;
          least = λ m lo fits. next.least m (above j n m over lo fits) fits;
        },
      )
]

is_power_from_lem :
    (left j k : ℕ) → j ≤ k → k < j + left → is_power_from left (2 ^ j) (2 ^ k) ≡ true
unfolding is_power_from
is_power_from_lem zero j k lo hi = absurd (omega arith)
is_power_from_lem (suc left) j k lo hi = elim (ℕ_discrete j k) [
  | yes e ↦ rw ((==_iff (2 ^ k) (2 ^ j)).1 (rw e refl)) refl
  | no ne ↦
      rw
        (
          (let e : 2 * 2 ^ j ≡ 2 ^ suc j = omega (arith, pow-suc 2 j) in e),
          is_power_from_lem left (suc j) k (omega arith) (omega arith),
        )
        (or-true (2 ^ k == 2 ^ j))
]

-- An index over a power of two begins at 0, with the mask of the lower bits.
pub new-power : (k : ℕ) → k ≤ 63 → new (2 ^ k) ≡ returns (record { value = 0; mask = 2 ^ k - 1 })
unfolding new is_power_of_two
new-power k h = if-of_true _ _ (is_power_from_lem 64 0 k (omega arith) (omega arith))

-- `next_power_of_two` is the least power of two that is not below its argument, up to 2^63.
pub next_power_of_two_lem :
    (n : ℕ) → n ≤ 2 ^ 63 → (k : ℕ) × (next_power_of_two n ≡ 2 ^ k) × (k ≤ 63) × IsNext n 0 k
unfolding next_power_of_two
next_power_of_two_lem n h = let (k, e, hi, next) = power_from_lem 63 0 n h in (k, e, hi, next)
