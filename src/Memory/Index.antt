-- ===== src/Memory/Index.antt =====
-- `AtomicIndex` of src/memory/mod.rs, and the two functions on powers of two of `usize`.
pub mod Powers
use ring_buffer.Prelude.{
  ℕ, zero, suc, ◌+◌, ◌-◌, ◌*◌, Bool, true, false, ◌||◌, leb, ◌==◌, if◌then◌else◌, bit_and, ◌⊎◌, inl,
  inr,
}
use ring_buffer.Platform.{add64}
use ring_buffer.Memory.Run.{Run, returns, panic}

-- The first of `power`, `2 * power` and so on that is at least `n`; 0 behind the last power.
unfoldable pub power_from : ℕ → ℕ → ℕ → ℕ
power_from zero power n = 0
power_from (suc left) power n =
    let rest = power_from left (2 * power) n in if leb n power then power else rest

-- `usize::next_power_of_two`, in a release build.
unfoldable pub next_power_of_two : ℕ → ℕ
next_power_of_two n = power_from 64 1 n

unfoldable pub is_power_from : ℕ → ℕ → ℕ → Bool
is_power_from zero power n = false
is_power_from (suc left) power n = (n == power) || is_power_from left (2 * power) n

-- `usize::is_power_of_two`.
unfoldable pub is_power_of_two : ℕ → Bool
is_power_of_two n = is_power_from 64 1 n

pub record AtomicIndex : Type 0 where
  pub value : ℕ
  pub mask : ℕ

unfoldable pub new : ℕ → Run AtomicIndex
new capacity =
    if is_power_of_two capacity then returns (record { value = 0; mask = capacity - 1 }) else panic

abbrev pub load : AtomicIndex → ℕ
load i = i.value

abbrev pub store : AtomicIndex → ℕ → AtomicIndex
store i v = record i { value = v }

-- The old value, on the left if the exchange was made.
unfoldable pub compare_exchange : AtomicIndex → ℕ → ℕ → (ℕ ⊎ ℕ) × AtomicIndex
compare_exchange i current new =
    if i.value == current then (inl i.value, store i new) else (inr i.value, i)

unfoldable pub fetch_add : AtomicIndex → ℕ → ℕ × AtomicIndex
fetch_add i v = (i.value, store i (add64 i.value v))

unfoldable pub wrap : AtomicIndex → ℕ → ℕ
wrap i v = bit_and v i.mask

unfoldable pub physical_index : AtomicIndex → ℕ → ℕ
physical_index i seq = bit_and seq i.mask

unfoldable pub capacity : AtomicIndex → ℕ
capacity i = i.mask + 1
