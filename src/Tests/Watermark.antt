-- ===== src/Tests/Watermark.antt =====
-- The flush daemon behind the watermark, at concrete inputs.
use native.Mathlib.Nat.{le_trans, mul-le-mul_right, le-div_iff_mul-le, div-mul-le_self}
use ring_buffer.Prelude.{
  ℕ, zero, suc, ◌==◌, if◌then◌else◌, ◌<◌, ◌*◌, ◌/◌, ◌≡◌, refl, [], ◌∷◌, Option, none, Bool, true,
  false, arith, ltb, leb, le→leb, leb→le,
}
use ring_buffer.Memory.Run.{returns}
use ring_buffer.Disk.Outcome.{ok}
use ring_buffer.Daemon.{Buffers}
use ring_buffer.Daemon.Float.{Float, IsMonotone}
use ring_buffer.Daemon.Watermark.{default, usage_percent, compared, waits, round}
use ring_buffer.Daemon.Spin.{writes, rounds, run, run-spins}
use ring_buffer.Tests.Toy.{toy, small_buffer, three_bytes}
use ring_buffer.Tests.Memory.{two_slots, two_slots-Filled}

-- Whole numbers, an infinite one, and one that is none, for floating-point ones.
data Whole : Type 0 where
  finite : ℕ → Whole
  infinite : Whole
  nan : Whole

-- A quotient by nothing, or of two infinite numbers, is none; `inf * 0` is none.
divided : Whole → Whole → Whole
divided (finite x) (finite zero) = if x == 0 then nan else infinite
divided (finite x) (finite (suc y)) = finite (x / suc y)
divided (finite x) infinite = finite 0
divided infinite (finite y) = infinite
divided infinite infinite = nan
divided nan y = nan
divided (finite x) nan = nan
divided infinite nan = nan

multiplied : Whole → Whole → Whole
multiplied (finite x) (finite y) = finite (x * y)
multiplied (finite zero) infinite = nan
multiplied (finite (suc x)) infinite = infinite
multiplied infinite (finite zero) = nan
multiplied infinite (finite (suc y)) = infinite
multiplied infinite infinite = infinite
multiplied nan y = nan
multiplied (finite x) nan = nan
multiplied infinite nan = nan

is_below : (ℕ → ℕ → Bool) → Bool → Whole → Whole → Bool
is_below test same (finite x) (finite y) = test x y
is_below test same (finite x) infinite = true
is_below test same infinite (finite y) = false
is_below test same infinite infinite = same
is_below test same nan y = false
is_below test same (finite x) nan = false
is_below test same infinite nan = false

truncated : Whole → ℕ
truncated (finite x) = x
truncated infinite = 18_446_744_073_709_551_615
truncated nan = 0

instance abbrev whole : Float Whole
whole = record {
  of_u64 = finite;
  one_and_half = finite 1;
  div = divided;
  mul = multiplied;
  lt = is_below ltb false;
  le = is_below leb true;
  as_usize = truncated;
}

le_trans-Whole :
    (x y z : Whole)
    → is_below leb true x y ≡ true
    → is_below leb true y z ≡ true
    → is_below leb true x z ≡ true
unfolding is_below
le_trans-Whole (finite x) (finite y) (finite z) h h' =
    le→leb x z (le_trans (leb→le x y h) (leb→le y z h'))
le_trans-Whole (finite x) (finite y) infinite h h' = refl
le_trans-Whole (finite x) (finite y) nan h h' = h'
le_trans-Whole (finite x) infinite (finite z) h h' = absurd (ground (arith, h'))
le_trans-Whole (finite x) infinite infinite h h' = refl
le_trans-Whole (finite x) infinite nan h h' = h'
le_trans-Whole (finite x) nan z h h' = absurd (ground (arith, h))
le_trans-Whole infinite (finite y) z h h' = absurd (ground (arith, h))
le_trans-Whole infinite infinite z h h' = h'
le_trans-Whole infinite nan z h h' = absurd (ground (arith, h))
le_trans-Whole nan y z h h' = absurd (ground (arith, h))

div_mono-Whole :
    (x y : Whole) (c : ℕ)
    → 0 < c
    → is_below leb true x y ≡ true
    → is_below leb true (divided x (finite c)) (divided y (finite c)) ≡ true
unfolding is_below divided
div_mono-Whole x y zero pos h = absurd (omega (arith, pos))
div_mono-Whole (finite x) (finite y) (suc c) pos h =
    le→leb _ _ ((le-div_iff_mul-le pos).1 (le_trans (div-mul-le_self x (suc c)) (leb→le x y h)))
div_mono-Whole (finite x) infinite (suc c) pos h = refl
div_mono-Whole (finite x) nan (suc c) pos h = h
div_mono-Whole infinite (finite y) (suc c) pos h = absurd (ground (arith, h))
div_mono-Whole infinite infinite (suc c) pos h = refl
div_mono-Whole infinite nan (suc c) pos h = h
div_mono-Whole nan y (suc c) pos h = absurd (ground (arith, h))

mul_mono-Whole :
    (x y : Whole) (c : ℕ)
    → 0 < c
    → is_below leb true x y ≡ true
    → is_below leb true (multiplied x (finite c)) (multiplied y (finite c)) ≡ true
unfolding is_below multiplied
mul_mono-Whole x y zero pos h = absurd (omega (arith, pos))
mul_mono-Whole (finite x) (finite y) (suc c) pos h =
    le→leb _ _ (mul-le-mul_right (suc c) (leb→le x y h))
mul_mono-Whole (finite x) infinite (suc c) pos h = refl
mul_mono-Whole (finite x) nan (suc c) pos h = h
mul_mono-Whole infinite (finite y) (suc c) pos h = absurd (ground (arith, h))
mul_mono-Whole infinite infinite (suc c) pos h = refl
mul_mono-Whole infinite nan (suc c) pos h = h
mul_mono-Whole nan y (suc c) pos h = absurd (ground (arith, h))

whole-IsMonotone : IsMonotone Whole
unfolding is_below
whole-IsMonotone = record {
  le_trans = le_trans-Whole;
  of_u64_mono = λ m n h. le→leb m n h;
  div_mono = div_mono-Whole;
  mul_mono = mul_mono-Whole;
}

-- Both slots are reserved.
abbrev full : Buffers
full = record { memory = two_slots 2; signal = false; disk = small_buffer }

full-spins : waits {F = Whole} default full.memory ≡ false
unfolding waits compared usage_percent is_below divided multiplied
full-spins = refl

run-spins_example :
    (s' : Buffers) × (run {F = Whole} default full
        (writes three_bytes ∷ (rounds true (λ _. none) none ∷ []))
      ≡ returns s')
    × (waits {F = Whole} default s'.memory ≡ false)
    × (s'.disk ≡ small_buffer)
    × ((notified : Bool) (io : ℕ → Option ℕ) (io_flush : Option ℕ)
        → round {F = Whole} default notified io io_flush s' ≡ (ok tt, s'))
run-spins_example =
    run-spins whole-IsMonotone default 1 2 full
      (writes three_bytes ∷ (rounds true (λ _. none) none ∷ [])) (two_slots-Filled 2 (omega arith))
      full-spins (omega arith, tt)
